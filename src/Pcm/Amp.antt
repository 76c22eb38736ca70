-- ===== src/Pcm/Amp.antt =====
-- libroardsp/amp.c: the volume of a stream's samples, and need_vol_change of roard/mixer.c, which asks
-- whether it changes anything. The accumulator `s` is an int for samples of 8 and 16 bits and
-- ROAR_NATIVE_INT64 for 32; its overflow wraps around. The pointers are taken not to be NULL.
pub mod Same
mod Tests
use roaraudio.Prelude.{
  ℕ, zero, suc, ◌+◌, ◌*◌, ◌/◌, ◌%◌, ◌≡◌, Bool, true, false, Option, none, some, List, [], ◌∷◌, ◌==◌,
  ltb, if◌then◌else◌, get_elem?,
}
use roaraudio.Prelude.Int.{ℤ, pos, negsuc, ◌*ℤ◌, sub_ℕ}
use roaraudio.Pcm.{wrap}

-- `struct roar_mixer_settings`
pub record MixerSettings : Type 0 where
  pub scale : ℕ
  pub rpg_mul : ℕ
  pub rpg_div : ℕ
  pub mixer : List ℕ

-- C's division, which rounds to 0; a division by 0 is a fault.
abbrev pub quotient : ℤ → ℕ → Option ℤ
quotient (pos n) zero = none
quotient (pos n) (suc d) = some (pos (n / suc d))
quotient (negsuc n) zero = none
quotient (negsuc n) (suc d) = some (sub_ℕ 0 (suc n / suc d))

-- What one sample is multiplied by: the mixer's value of its channel, with the replay gain if
-- there is one. No channel, and a channel behind the table, are faults.
abbrev pub gain : MixerSettings → Option ℕ → Option ℤ
gain set none = none
gain set (some m) =
    if set.rpg_mul == set.rpg_div
    then some (pos m)
    else quotient (wrap 4294967296 (pos (m * set.rpg_mul))) set.rpg_div

abbrev pub store_sample : (modulus : ℕ) → Option ℤ → Option (List ℤ) → Option (List ℤ)
store_sample modulus none out = none
store_sample modulus (some s) none = none
store_sample modulus (some s) (some out) = some (wrap modulus s ∷ out)

-- `s *= ...; s /= set->scale;`
abbrev pub amp_sample : (accumulator scale : ℕ) → ℤ → Option ℤ → Option ℤ
amp_sample accumulator scale x none = none
amp_sample accumulator scale x (some g) = quotient (wrap accumulator (x *ℤ g)) scale

abbrev pub channel_of : (i channels : ℕ) → List ℕ → Option ℕ
channel_of i zero mixer = none
channel_of i (suc c) mixer = get_elem? mixer (i % suc c)

-- The loop of `roar_amp_pcm_8bit` and of the other two, from sample `i` on.
pub amp_loop :
    (modulus accumulator : ℕ) (input : List ℤ) (i samples channels : ℕ)
    → MixerSettings
    → Option (List ℤ)
amp_loop modulus accumulator input i zero channels set = some []
amp_loop modulus accumulator [] i (suc n) channels set = none
amp_loop modulus accumulator (x ∷ input) i (suc n) channels set =
    store_sample modulus
      (amp_sample accumulator set.scale x (gain set (channel_of i channels set.mixer)))
      (amp_loop modulus accumulator input (i + 1) n channels set)

-- What `roar_amp_pcm` does: the samples it writes, -1, or a fault.
pub data Amped : Type 0 where
  amped : List ℤ → Amped
  refused : Amped
  fault : Amped

abbrev pub loop_result : Option (List ℤ) → Amped
loop_result none = fault
loop_result (some out) = amped out

pub amp_pcm : (bits : ℕ) (input : List ℤ) (samples channels : ℕ) → MixerSettings → Amped
unfolding amp_loop
amp_pcm bits input samples channels set =
    if bits == 8
    then loop_result (amp_loop 256 4294967296 input 0 samples channels set)
    else if bits == 16
    then loop_result (amp_loop 65536 4294967296 input 0 samples channels set)
    else if bits == 32
    then loop_result (amp_loop 4294967296 18446744073709551616 input 0 samples channels set)
    else refused

-- The loop of `need_vol_change`: `none` is a read behind the table.
pub any_differs : (scale : ℕ) → List ℕ → (channels : ℕ) → Option Bool
any_differs scale mixer zero = some false
any_differs scale [] (suc n) = none
any_differs scale (m ∷ mixer) (suc n) =
    let rest = any_differs scale mixer n in if m == scale then rest else some true

-- `need_vol_change`: `none` is -1.
pub need_vol_change : (channels : ℕ) → MixerSettings → Option Bool
unfolding any_differs
need_vol_change channels set =
    if ltb channels 1
    then none
    else if ltb 64 channels
    then none
    else if set.rpg_mul == set.rpg_div
    then any_differs set.scale set.mixer channels
    else some true
