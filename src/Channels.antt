-- ===== src/Channels.antt =====
-- libroardsp/channels.c: the names of channels, the standard orders of channels, and the map from the
-- channels of a stream to those of another. A channel is a number; -1 in `map` is `none`.
pub mod Names
pub mod Orders
pub mod Moved
mod Tests
use roaraudio.Prelude.{
  ℕ, zero, suc, ◌+◌, ◌*◌, ◌/◌, Bool, true, false, Option, none, some, List, [], ◌∷◌, ◌++◌, ◌==◌,
  ltb, ◌||◌, ◌&&◌, if◌then◌else◌, length, drop, take, get_elem?, set, replicate, map,
}
use roaraudio.Status.{Status, ok, failed}
use roaraudio.Meta.{Run, done, fault, and_then, ◌>>=◌, pure}

-- ROAR_MAX_CHANNELS and ROARDSP_CHAN_NONE
abbrev pub max_channels : ℕ
max_channels = 64

abbrev pub chan_none : ℕ
chan_none = 0

-- `struct roardsp_chanmap`; each list has `max_channels` entries.
pub record ChanMap : Type 0 where
  pub in_ : List ℕ
  pub out : List ℕ
  pub places : List (Option ℕ)

-- The inner loop of roardsp_chanmap_calc: the first place of `list` with the channel `chan`.
unfoldable pub find_chan : (chan : ℕ) → List ℕ → Option ℕ
find_chan chan [] = none
find_chan chan (c ∷ list) =
    if chan == c then some 0 else elim (find_chan chan list) [ none ↦ none | some b ↦ some (b + 1) ]

abbrev pub and_place : Option ℕ → Status × List (Option ℕ) → Status × List (Option ℕ)
and_place place r = (r.0, place ∷ r.1)

-- The outer loop: what it returns, and the entries of `map` for the channels of `from`. They are -1
-- before it begins.
pub find_chans : (err_on_none : Bool) → (from to : List ℕ) → Status × List (Option ℕ)
unfolding find_chan
find_chans err_on_none [] to = (ok, [])
find_chans err_on_none (c ∷ from) to =
    let rest = find_chans err_on_none from to in
    if c == chan_none then and_place none rest else elim (find_chan c to) [
      | some b ↦ and_place (some b) rest
      | none ↦
          if err_on_none then (failed, replicate (suc (length from)) none) else and_place none rest
    ]

-- `what` of roardsp_chanmap_calc
pub data What : Type 0 where
  chanmap_in : What
  chanmap_out : What
  chanmap_map : What
  chanmap_invmap : What

abbrev pub with_places : ChanMap → Status × List (Option ℕ) → Status × ChanMap
with_places m r = (r.0, record m { places = r.1 })

-- `roardsp_chanmap_calc` of a map that is not NULL
unfoldable pub chanmap_calc : ChanMap → What → (err_on_none : Bool) → Status × ChanMap
unfolding find_chans
chanmap_calc m chanmap_map err_on_none = with_places m (find_chans err_on_none m.in_ m.out)
chanmap_calc m chanmap_invmap err_on_none = with_places m (find_chans err_on_none m.out m.in_)
chanmap_calc m chanmap_in err_on_none = (failed, m)
chanmap_calc m chanmap_out err_on_none = (failed, m)

-- `buf[(int)map->map[c]] = in[c]` for the channels of a frame, from the first one on. A place of -1
-- and one behind the buffer are faults.
abbrev pub put_sample {ℓ} : {A : Type ℓ} → Option (Option ℕ) → A → List A → Option (List A)
put_sample none x buf = none
put_sample (some none) x buf = none
put_sample (some (some b)) x buf = if ltb b (length buf) then some (set buf b x) else none

pub map_frame {ℓ} :
    {A : Type ℓ} → List (Option ℕ) → (frame : List A) → (buf : List A) → Option (List A)
map_frame ps [] buf = some buf
map_frame [] (x ∷ frame) buf = none
map_frame (p ∷ ps) (x ∷ frame) buf = elim (put_sample (some p) x buf) [
  | none ↦ none
  | some buf' ↦ map_frame ps frame buf'
]

-- The frames of roardsp_chanmap_mappcm8, _mappcm16 and _mappcm32 with `in == out`: `buf` is cleared for
-- each of them, and its first `chans` samples are stored.
pub map_in_place : (chans : ℕ) → List (Option ℕ) → (frames : ℕ) → List ℕ → Option (List ℕ)
unfolding map_frame
map_in_place chans ps zero pcm = some pcm
map_in_place chans ps (suc n) pcm =
    elim (map_frame ps (take chans pcm) (replicate max_channels 0)) [
      | none ↦ none
      | some buf ↦ elim (map_in_place chans ps n (drop chans pcm)) [
        | none ↦ none
        | some rest ↦ some (take chans buf ++ rest)
      ]
    ]

-- The frames of the three with an output of its own, which was cleared: a place behind a frame lies in
-- the frames that follow.
pub map_apart : (chans : ℕ) → List (Option ℕ) → (frames : ℕ) → (pcm out : List ℕ) → Option (List ℕ)
unfolding map_frame
map_apart chans ps zero pcm out = some out
map_apart chans ps (suc n) pcm out = elim (map_frame ps (take chans pcm) out) [
  | none ↦ none
  | some out' ↦ elim (map_apart chans ps n (drop chans pcm) (drop chans out')) [
    | none ↦ none
    | some rest ↦ some (take chans out' ++ rest)
  ]
]

abbrev pub written : Option (List ℕ) → Run (Status × List ℕ)
written none = fault
written (some pcm) = done (ok, pcm)

-- One of the three, for samples of `size` bytes, of which `pcm` has as many as `len` bytes hold.
abbrev pub map_pcm :
    (size : ℕ) (same : Bool) (pcm : List ℕ) (len chans : ℕ) → ChanMap → Run (Status × List ℕ)
map_pcm size same pcm len zero m = fault
map_pcm size true pcm len (suc c) m =
    written (map_in_place (suc c) m.places (len / (suc c * size)) pcm)
map_pcm size false pcm len (suc c) m =
    written (map_apart (suc c) m.places (len / (suc c * size)) pcm (replicate (len / size) 0))

-- `roardsp_chanmap_mappcm`, `same` for `in == out`, and what it leaves in `out`, which begins as `pcm`
-- where it fails
unfoldable pub mappcm :
    (same : Bool) (pcm : List ℕ) (len chans : ℕ) → ChanMap → (bits : ℕ) → Run (Status × List ℕ)
unfolding map_in_place map_apart
mappcm same pcm len chans m bits =
    if len == 0
    then done (ok, pcm)
    else if ltb max_channels chans
    then done (failed, pcm)
    else if bits == 8
    then map_pcm 1 same pcm len chans m
    else if bits == 16
    then map_pcm 2 same pcm len chans m
    else if bits == 32
    then map_pcm 4 same pcm len chans m
    else done (failed, pcm)
