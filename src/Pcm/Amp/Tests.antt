-- ===== src/Pcm/Amp/Tests.antt =====
-- roar_amp_pcm of libroardsp/amp.c and need_vol_change of roard/mixer.c on a few samples.
use roaraudio.Prelude.{◌⊎◌, ◌≢◌, List, ◌≡◌, refl, true, false, some, [], ◌∷◌, arith}
use roaraudio.Prelude.Int.{ℤ, pos, negsuc, ◌*ℤ◌}
use roaraudio.Pcm.Amp.{MixerSettings, amped, fault, amp_pcm, need_vol_change}
use roaraudio.Pcm.Amp.Same.{IsFull, int16, amp_pcm-same}

-- full volume on two channels
abbrev full_volume : MixerSettings
full_volume = record { scale = 65535; rpg_mul = 1; rpg_div = 1; mixer = 65535 ∷ 65535 ∷ [] }

abbrev loud : List ℤ
loud = pos 32767 ∷ negsuc 32767 ∷ pos 5 ∷ []

amp_pcm-same_example :
    ((need_vol_change 2 full_volume ≡ some false)
      × IsFull 2 full_volume
      × (amp_pcm 16 loud 3 2 full_volume ≡ amped loud))
    ⊎ ((need_vol_change 2 full_volume ≢ some false) × ¬ IsFull 2 full_volume)
amp_pcm-same_example =
    amp_pcm-same int16 loud 2 full_volume
      ((omega arith, omega arith), ((omega arith, omega arith), ((omega arith, omega arith), tt)))
      (omega arith) (omega arith)

-- half the volume on the second channel, rounded to 0
abbrev balance : MixerSettings
balance = record { scale = 100; rpg_mul = 1; rpg_div = 1; mixer = 100 ∷ 50 ∷ [] }

need_vol_change-balance : need_vol_change 2 balance ≡ some true
unfolding need_vol_change
need_vol_change-balance = refl

amp_pcm-balance :
    amp_pcm 8 (negsuc 8 ∷ negsuc 8 ∷ pos 7 ∷ pos 7 ∷ []) 4 2 balance
    ≡ amped (negsuc 8 ∷ negsuc 3 ∷ pos 7 ∷ pos 3 ∷ [])
unfolding amp_pcm ◌*ℤ◌
amp_pcm-balance = refl

-- a replay gain of 3 / 2
abbrev louder : MixerSettings
louder = record { scale = 100; rpg_mul = 3; rpg_div = 2; mixer = 100 ∷ [] }

amp_pcm-louder : amp_pcm 8 (pos 50 ∷ pos 100 ∷ []) 2 1 louder ≡ amped (pos 75 ∷ negsuc 105 ∷ [])
unfolding amp_pcm ◌*ℤ◌
amp_pcm-louder = refl

-- A replay gain that is divided by 0 is a fault.
amp_pcm-no_gain :
    amp_pcm 8 (pos 50 ∷ []) 1 1 (record { scale = 100; rpg_mul = 3; rpg_div = 0; mixer = 100 ∷ [] })
    ≡ fault
unfolding amp_pcm ◌*ℤ◌
amp_pcm-no_gain = refl
