-- ===== src/Channels/Orders.antt =====
-- The standard orders of channels: roardsp_chanlist_init (libroardsp/channels.c).
pub mod Distinct
use roaraudio.Prelude.{
  ℕ, zero, suc, ◌+◌, Bool, true, false, Option, none, some, List, [], ◌∷◌, ◌++◌, ◌==◌, ltb, ◌&&◌,
  if◌then◌else◌, length, drop,
}
use roaraudio.Status.{Status, ok, failed}
use roaraudio.Channels.{max_channels}

-- ROARDSP_CHANLIST_MAP_ROARAUDIO and the others, and a number that is none of them
pub data Order : Type 0 where
  roaraudio_order : Order
  vorbis_order : Order
  flac_order : Order
  riff_wave_order : Order
  oss_order : Order
  alsa_order : Order
  esd_order : Order
  midi_order : Order
  unknown_order : Order

-- RoarAudio's own order, of 3 channels and more.
abbrev pub order_roaraudio : (channels : ℕ) → Option (List ℕ)
order_roaraudio channels =
    if channels == 3
    then some (1 ∷ 2 ∷ 7 ∷ [])
    else if channels == 4
    then some (1 ∷ 2 ∷ 5 ∷ 6 ∷ [])
    else if channels == 5
    then some (1 ∷ 2 ∷ 7 ∷ 5 ∷ 6 ∷ [])
    else if channels == 6
    then some (1 ∷ 2 ∷ 7 ∷ 12 ∷ 5 ∷ 6 ∷ [])
    else if channels == 7
    then some (1 ∷ 2 ∷ 7 ∷ 12 ∷ 3 ∷ 4 ∷ 9 ∷ [])
    else if channels == 8
    then some (1 ∷ 2 ∷ 7 ∷ 12 ∷ 3 ∷ 4 ∷ 5 ∷ 6 ∷ [])
    else none

-- The order of Vorbis.
abbrev pub order_vorbis : (channels : ℕ) → Option (List ℕ)
order_vorbis channels =
    if channels == 3
    then some (1 ∷ 7 ∷ 2 ∷ [])
    else if channels == 4
    then some (1 ∷ 2 ∷ 5 ∷ 6 ∷ [])
    else if channels == 5
    then some (1 ∷ 7 ∷ 2 ∷ 5 ∷ 6 ∷ [])
    else if channels == 6
    then some (1 ∷ 7 ∷ 2 ∷ 5 ∷ 6 ∷ 12 ∷ [])
    else if channels == 7
    then some (1 ∷ 7 ∷ 2 ∷ 3 ∷ 4 ∷ 9 ∷ 12 ∷ [])
    else if channels == 8
    then some (1 ∷ 7 ∷ 2 ∷ 3 ∷ 4 ∷ 5 ∷ 6 ∷ 12 ∷ [])
    else none

-- The order of OSS.
abbrev pub order_oss : (channels : ℕ) → Option (List ℕ)
order_oss channels =
    if channels == 3
    then some (1 ∷ 2 ∷ 7 ∷ [])
    else if channels == 4
    then some (1 ∷ 2 ∷ 7 ∷ 12 ∷ [])
    else if channels == 5
    then some (1 ∷ 2 ∷ 7 ∷ 12 ∷ 3 ∷ [])
    else if channels == 6
    then some (1 ∷ 2 ∷ 7 ∷ 12 ∷ 3 ∷ 4 ∷ [])
    else if channels == 7
    then some (1 ∷ 2 ∷ 7 ∷ 12 ∷ 3 ∷ 4 ∷ 5 ∷ [])
    else if channels == 8
    then some (1 ∷ 2 ∷ 7 ∷ 12 ∷ 3 ∷ 4 ∷ 5 ∷ 6 ∷ [])
    else none

-- The order of ALSA.
abbrev pub order_alsa : (channels : ℕ) → Option (List ℕ)
order_alsa channels =
    if channels == 3
    then some (1 ∷ 2 ∷ 5 ∷ [])
    else if channels == 4
    then some (1 ∷ 2 ∷ 5 ∷ 6 ∷ [])
    else if channels == 5
    then some (1 ∷ 2 ∷ 5 ∷ 6 ∷ 7 ∷ [])
    else if channels == 6
    then some (1 ∷ 2 ∷ 5 ∷ 6 ∷ 7 ∷ 12 ∷ [])
    else if channels == 7
    then some (1 ∷ 2 ∷ 5 ∷ 6 ∷ 7 ∷ 12 ∷ 5 ∷ [])
    else if channels == 8
    then some (1 ∷ 2 ∷ 5 ∷ 6 ∷ 7 ∷ 12 ∷ 5 ∷ 6 ∷ [])
    else none

-- The switch of roardsp_chanlist_init: what is stored in `list`, `none` where it returns -1.
abbrev pub order_of : Order → (channels : ℕ) → Option (List ℕ)
order_of roaraudio_order channels = order_roaraudio channels
order_of flac_order channels = if ltb 6 channels then none else order_roaraudio channels
order_of vorbis_order channels = order_vorbis channels
order_of oss_order channels = order_oss channels
order_of alsa_order channels = order_alsa channels
order_of riff_wave_order channels = none
order_of esd_order channels = none
order_of midi_order channels = none
order_of unknown_order channels = none

-- The first entries of `list` are replaced.
abbrev pub store : (new list : List ℕ) → List ℕ
store new list = new ++ drop (length new) list

-- ROARDSP_CHAN_MIDI0 and the channels behind it
pub midi_channels : (first n : ℕ) → List ℕ
midi_channels first zero = []
midi_channels first (suc n) = first ∷ midi_channels (first + 1) n

abbrev pub is_midi : Order → Bool
is_midi midi_order = true
is_midi order = false

-- `roardsp_chanlist_init` of a list that is not NULL, with `channels` no less than 0.
unfoldable pub chanlist_init : (list : List ℕ) (channels : ℕ) → Order → Status × List ℕ
unfolding midi_channels
chanlist_init list channels order =
    let first = if is_midi order then store (midi_channels 64 channels) list else list in
    if channels == 0
    then (ok, list)
    else if ltb max_channels channels
    then (failed, list)
    else if channels == 1
    then (ok, store (7 ∷ []) first)
    else if channels == 2
    then (ok, store (1 ∷ 2 ∷ []) first)
    else elim (order_of order channels) [
      | none ↦ (failed, first)
      | some new ↦ (ok, store new first)
    ]
