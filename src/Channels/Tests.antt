-- ===== src/Channels/Tests.antt =====
-- The functions of libroardsp/channels.c on a few channels.
use roaraudio.Prelude.{◌≡◌, refl, true, false, List, [], ◌∷◌, ℕ, arith, replicate, take, inr, ◌*◌}
use roaraudio.Status.{ok, failed}
use roaraudio.Meta.{done, fault}
use roaraudio.Text.{codes}
use roaraudio.Channels.{ChanMap, find_chan, chanmap_calc, chanmap_map, mappcm}
use roaraudio.Channels.Names.{chanlist2str}
use roaraudio.Channels.Orders.{chanlist_init, vorbis_order, alsa_order, midi_order}
use roaraudio.Channels.Orders.Distinct.{are_distinct, chanlist_init-distinct}
use roaraudio.Channels.Moved.{AreMoved, s16, mappcm-moves}

-- three channels in RoarAudio's order on the way to the order of Vorbis
abbrev to_vorbis : ChanMap
to_vorbis = record { in_ = 1 ∷ 2 ∷ 7 ∷ []; out = 1 ∷ 7 ∷ 2 ∷ []; places = [] }

mappcm-moves_example :
    (m' : ChanMap) × (pcm' : List ℕ) × (chanmap_calc to_vorbis chanmap_map true ≡ (ok, m'))
    × (mappcm true (10 ∷ 20 ∷ 30 ∷ 11 ∷ 21 ∷ 31 ∷ []) (2 * (3 * 2)) 3 m' 16 ≡ done (ok, pcm'))
    × AreMoved (1 ∷ 2 ∷ 7 ∷ []) (1 ∷ 7 ∷ 2 ∷ []) 3 2 (10 ∷ 20 ∷ 30 ∷ 11 ∷ 21 ∷ 31 ∷ []) pcm'
unfolding find_chan
mappcm-moves_example =
    mappcm-moves s16 to_vorbis true 2 3 (10 ∷ 20 ∷ 30 ∷ 11 ∷ 21 ∷ 31 ∷ [])
      (
        (λ e. omega (arith, e)),
        (0, refl, omega arith),
        refl,
        (
          (λ e. omega (arith, e)),
          (2, refl, omega arith),
          refl,
          ((λ e. omega (arith, e)), (1, refl, omega arith), refl, tt),
        ),
      )
      (inr (0, refl), (inr (2, refl), (inr (1, refl), tt))) (omega arith) (omega arith)
      (omega arith) (omega arith)

mappcm-vorbis :
    mappcm true
      (10 ∷ 20 ∷ 30 ∷ 11 ∷ 21 ∷ 31 ∷ [])
      12
      3
      (chanmap_calc to_vorbis chanmap_map true).1
      16
    ≡ done (ok, 10 ∷ 30 ∷ 20 ∷ 11 ∷ 31 ∷ 21 ∷ [])
unfolding mappcm chanmap_calc
mappcm-vorbis = refl

-- A channel that is not found leaves -1 in the map, in front of the buffer.
mappcm-lost :
    mappcm true
      (10 ∷ 20 ∷ [])
      4
      2
      (chanmap_calc
        (record { in_ = 1 ∷ 3 ∷ []; out = 1 ∷ 2 ∷ []; places = [] })
        chanmap_map
        false).1
      16
    ≡ fault
unfolding mappcm chanmap_calc
mappcm-lost = refl

chanlist2str-stereo : chanlist2str (1 ∷ 2 ∷ 50 ∷ []) ≡ codes "FRONT_LEFT,FRONT_RIGHT,<<<INVALID>>>"
unfolding chanlist2str
chanlist2str-stereo = refl

chanlist_init-distinct_example :
    are_distinct (take 5 (chanlist_init (replicate 64 0) 5 vorbis_order).1) ≡ true
unfolding chanlist_init
chanlist_init-distinct_example =
    chanlist_init-distinct (replicate 64 0) 5 vorbis_order refl (λ e. e)

-- The order of ALSA names the two back channels twice.
chanlist_init-alsa :
    chanlist_init (replicate 8 0) 8 alsa_order ≡ (ok, 1 ∷ 2 ∷ 5 ∷ 6 ∷ 7 ∷ 12 ∷ 5 ∷ 6 ∷ [])
unfolding chanlist_init
chanlist_init-alsa = refl

-- The order of midi channels is stored, and -1 is returned.
chanlist_init-midi : chanlist_init (replicate 4 0) 4 midi_order ≡ (failed, 64 ∷ 65 ∷ 66 ∷ 67 ∷ [])
unfolding chanlist_init
chanlist_init-midi = refl
