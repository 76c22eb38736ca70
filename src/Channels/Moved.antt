-- ===== src/Channels/Moved.antt =====
-- roardsp_chanmap_calc and roardsp_chanmap_mappcm of libroardsp/channels.c, one after the other.
use native.Mathlib.Nat.{mul-div_cancel, mul-le-mul_right}
use roaraudio.Prelude.{
  ℕ, zero, suc, ◌+◌, ◌*◌, ◌/◌, ◌≤◌, ◌<◌, ◌≡◌, ◌≢◌, refl, ap, ◌∙◌, inl, inr, Bool, true, false,
  Option, none, some, List, [], ◌∷◌, ◌++◌, ◌==◌, length, drop, take, get_elem?, set, replicate,
  arith, length-take, length-drop, length-append, Bool-cases, ==-ne, ==-self, ◌⊎◌, Option-cases,
  length-set, lt→ltb, ltb,
}
use roaraudio.Prelude.Places.{
  get_elem?-set, get_elem?-front, get_elem?-behind, get_elem?-take, get_elem?-drop,
}
use roaraudio.Status.{ok}
use roaraudio.Meta.{done}
use roaraudio.Channels.{
  ChanMap, find_chan, find_chans, map_frame, map_in_place, max_channels, chanmap_calc, chanmap_map,
  mappcm,
}

find_chan-at :
    (c : ℕ) (list : List ℕ) (b : ℕ) → find_chan c list ≡ some b → get_elem? list b ≡ some c
unfolding find_chan
find_chan-at c [] b h = absurd (ground arith)
find_chan-at c (x ∷ list) zero h = ground arith
find_chan-at c (x ∷ list) (suc b) h = ground (arith, find_chan-at c list b)

-- Each of the first `k` channels of `from` is found in `to`, at a place below `n`, and no two of them
-- are the same.
abbrev pub Placed : (n : ℕ) (from to : List ℕ) (k : ℕ) → Type 0
Placed n from to zero = Unit {0}
Placed n [] to (suc k) = ⊥
Placed n (c ∷ from) to (suc k) =
    (c ≢ 0)
    × ((b : ℕ) × (find_chan c to ≡ some b) × (b < n))
    × (find_chan c (take k from) ≡ none)
    × Placed n from to k

first_place :
    (e : Bool) (c : ℕ) (from to : List ℕ) (b : ℕ)
    → c ≢ 0
    → find_chan c to ≡ some b
    → (find_chans e (c ∷ from) to ≡ ((find_chans e from to).0, some b ∷ (find_chans e from to).1))
unfolding find_chans
first_place e c from to b h k = rw (==-ne c 0 h, k) refl

not_first :
    (x c : ℕ) (list : List ℕ) → find_chan x (c ∷ list) ≡ none → (x ≢ c) × (find_chan x list ≡ none)
unfolding find_chan
not_first x c list h = elim (Bool-cases (x == c)) [
  | inl same ↦ absurd (ground arith)
  | inr other ↦ (ground arith, ground arith)
]

apart :
    (x y : ℕ) (to : List ℕ) (b b' : ℕ)
    → x ≢ y
    → find_chan x to ≡ some b
    → find_chan y to ≡ some b'
    → b' ≢ b
apart x y to b b' h k l e =
    let p = find_chan-at x to b k in let q = find_chan-at y to b' l in h (ground arith)

map_frame-put :
    (ps : List (Option ℕ)) (b v : ℕ) (frame buf : List ℕ)
    → b < length buf
    → map_frame (some b ∷ ps) (v ∷ frame) buf ≡ map_frame ps frame (set buf b v)
unfolding map_frame
map_frame-put ps b v frame buf h = ground (arith, lt→ltb b (length buf) h)

-- the channel that is found first, or behind the first one
found_at :
    (x c : ℕ) (list : List ℕ) (i : ℕ)
    → find_chan x (c ∷ list) ≡ some i
    → ((x ≡ c) × (i ≡ 0)) ⊎ ((j : ℕ) × (find_chan x list ≡ some j) × (i ≡ suc j))
unfolding find_chan
found_at x c list i h = elim (Bool-cases (x == c)) [
  | inl same ↦ inl (ground arith, ground arith)
  | inr other ↦ elim (Option-cases (find_chan x list)) [
    | inl e ↦ absurd (ground arith)
    | inr (j, e) ↦ inr (j, e, ground arith)
  ]
]

-- What stands at the place of another channel stays.
map_frame-keeps :
    (e : Bool) (n : ℕ) (from to frame buf : List ℕ) (x b : ℕ)
    → Placed n from to (length frame)
    → n ≤ length buf
    → find_chan x to ≡ some b
    → find_chan x (take (length frame) from) ≡ none
    → (buf' : List ℕ) × (map_frame (find_chans e from to).1 frame buf ≡ some buf')
      × (length buf' ≡ length buf)
      × (get_elem? buf' b ≡ get_elem? buf b)
unfolding map_frame find_chans
map_frame-keeps e n from to [] buf x b p room at other = (buf, refl, refl, refl)
map_frame-keeps e n [] to (v ∷ frame) buf x b p room at other = absurd p
map_frame-keeps e n (c ∷ from) to (v ∷ frame) buf x b p room at other =
    let bc = p.1.0 in
    let f = not_first x c (take (length frame) from) other in
    let ih =
      map_frame-keeps e n from to frame (set buf bc v) x b p.3 (omega (arith, length-set buf bc v))
        at f.1 in
    let fits : bc < length buf = omega (arith, p.1.2) in
    (
      ih.0,
      rw
          (
            first_place e c from to bc p.0 p.1.1,
            map_frame-put (find_chans e from to).1 bc v frame buf fits,
          )
          (ih.1),
      ih.2 ∙ length-set buf bc v,
      ih.3 ∙ get_elem?-set buf bc b v fits ∙ rw (==-ne bc b (apart x c to b bc f.0 at p.1.1)) refl,
    )

-- Every channel's sample stands at the channel's place afterwards.
map_frame-moves :
    (e : Bool) (n : ℕ) (from to frame buf : List ℕ)
    → Placed n from to (length frame)
    → n ≤ length buf
    → (buf' : List ℕ) × (map_frame (find_chans e from to).1 frame buf ≡ some buf')
      × (length buf' ≡ length buf)
      × ((x v b i : ℕ)
          → find_chan x from ≡ some i
          → get_elem? frame i ≡ some v
          → find_chan x to ≡ some b
          → (b < n) × (get_elem? buf' b ≡ some v))
unfolding map_frame find_chans
map_frame-moves e n from to [] buf p room =
    (buf, refl, refl, λ x v b i h k l. absurd (ground arith))
map_frame-moves e n [] to (v ∷ frame) buf p room = absurd p
map_frame-moves e n (c ∷ from) to (w ∷ frame) buf p room =
    let bc = p.1.0 in
    let fits : bc < length buf = omega (arith, p.1.2) in
    let r =
      map_frame-moves e n from to frame (set buf bc w) p.3 (omega (arith, length-set buf bc w)) in
    let q =
      map_frame-keeps e n from to frame (set buf bc w) c bc p.3 (omega (arith, length-set buf bc w))
        p.1.1 p.2 in
    let same : r.0 ≡ q.0 = cc (r.1, q.1) in
    (
      r.0,
      rw
          (
            first_place e c from to bc p.0 p.1.1,
            map_frame-put (find_chans e from to).1 bc w frame buf fits,
          )
          (r.1),
      r.2 ∙ length-set buf bc w,
      λ x v b i h k l. elim (found_at x c from i h) [
        | inl (e1, e2) ↦ (
          let e3 : bc ≡ b = ground (arith, p.1.1) in omega (arith, e3, p.1.2),
          let e3 : bc ≡ b = ground (arith, p.1.1) in
              let e4 : w ≡ v = ground arith in
              rw (same, ← e3, ← e4) (q.3 ∙ get_elem?-set buf bc bc w fits ∙ rw (==-self bc) refl),
        )
        | inr (j, e1, e2) ↦ r.3 x v b j e1 (rw e2 at k) l
      ],
    )

in_place_step :
    (chans : ℕ) (ps : List (Option ℕ)) (n : ℕ) (pcm buf rest : List ℕ)
    → map_frame ps (take chans pcm) (replicate max_channels 0) ≡ some buf
    → map_in_place chans ps n (drop chans pcm) ≡ some rest
    → map_in_place chans ps (suc n) pcm ≡ some (take chans buf ++ rest)
unfolding map_in_place
in_place_step chans ps n pcm buf rest h k = rw (h, map_in_place) (rw k refl)

first_or_later : (j : ℕ) → (j ≡ 0) ⊎ ((k : ℕ) × (j ≡ suc k))
first_or_later zero = inl refl
first_or_later (suc k) = inr (k, refl)

-- In each of the frames the sample of every channel stands at the channel's place in `to`.
pub record AreMoved (from to : List ℕ) (chans frames : ℕ) (pcm pcm' : List ℕ) : Type 0 where
  pub size : length pcm' ≡ length pcm
  pub moved :
      (j x i b v : ℕ)
      → j < frames
      → i < chans
      → find_chan x from ≡ some i
      → find_chan x to ≡ some b
      → get_elem? pcm (j * chans + i) ≡ some v
      → get_elem? pcm' (j * chans + b) ≡ some v

module _ (e : Bool) (from to : List ℕ) (chans : ℕ) (p : Placed chans from to chans)
    (few : chans ≤ 64) where
  frames_lem :
      (frames : ℕ) (pcm : List ℕ)
      → frames * chans ≤ length pcm
      → (pcm' : List ℕ) × (map_in_place chans (find_chans e from to).1 frames pcm ≡ some pcm')
        × AreMoved from to chans frames pcm pcm'
  unfolding map_in_place
  frames_lem zero pcm h =
      (pcm, refl, record { size = refl; moved = λ j x i b v k. absurd (omega arith) })
  frames_lem (suc n) pcm h =
      let row : chans ≤ length pcm = omega arith in
      let long : length (take chans pcm) ≡ chans = omega (arith, length-take chans pcm) in
      let r =
        map_frame-moves e chans from to (take chans pcm) (replicate max_channels 0) (rw long p)
          few in
      let ih = frames_lem n (drop chans pcm) (omega (arith, length-drop chans pcm)) in
      let wide : chans ≤ length r.0 = omega (arith, r.2) in
      (
        take chans r.0 ++ ih.0,
        in_place_step chans (find_chans e from to).1 n pcm r.0 ih.0 (r.1) (ih.1),
        record {
          size = omega (
            arith,
            length-append (take chans r.0) ih.0,
            length-take chans r.0,
            ih.2.size,
            length-drop chans pcm,
          );
          moved = λ j x i b v small inside k l m. elim (first_or_later j) [
            | inl e1 ↦
                let here : j * chans + i ≡ i = omega (arith, ap (λ k. k * chans) e1) in
                let there : j * chans + b ≡ b = omega (arith, ap (λ k. k * chans) e1) in
                let q = r.3 x v b i k (get_elem?-take pcm chans i inside ∙ rw here at m) l in
                rw there (get_elem?-front r.0 ih.0 chans b q.0 wide ∙ q.1)
            | inr (j', e1) ↦
                let here : chans + (j' * chans + i) ≡ j * chans + i =
                  omega (arith, ap (λ k. k * chans) e1) in
                let there : j * chans + b ≡ chans + (j' * chans + b) =
                  omega (arith, ap (λ k. k * chans) e1) in
                rw there (
                  get_elem?-behind r.0 ih.0 chans (j' * chans + b) wide
                  ∙ ih.2.moved j' x i b v (omega arith) inside k l
                      (get_elem?-drop pcm chans (j' * chans + i) ∙ rw here m))
          ];
        },
      )

-- the sizes of samples of roardsp_chanmap_mappcm
pub data Sample : Type 0 where
  s8 : Sample
  s16 : Sample
  s32 : Sample

abbrev pub bytes_of : Sample → ℕ
bytes_of s8 = 1
bytes_of s16 = 2
bytes_of s32 = 4

frames_in :
    (w : Sample) (frames c : ℕ) → frames * (suc c * bytes_of w) / (suc c * bytes_of w) ≡ frames
frames_in s8 frames c = mul-div_cancel frames (omega arith)
frames_in s16 frames c = mul-div_cancel frames (omega arith)
frames_in s32 frames c = mul-div_cancel frames (omega arith)

some_bytes : (w : Sample) (frames c : ℕ) → 0 < frames → frames * (suc c * bytes_of w) ≢ 0
some_bytes s8 frames c h e = omega (arith, mul-le-mul_right {m = 1} {n = frames} (suc c * 1) h)
some_bytes s16 frames c h e = omega (arith, mul-le-mul_right {m = 1} {n = frames} (suc c * 2) h)
some_bytes s32 frames c h e = omega (arith, mul-le-mul_right {m = 1} {n = frames} (suc c * 4) h)

few_channels : (c : ℕ) → c ≤ 64 → ltb 64 c ≡ false
few_channels c h = ground arith

mappcm_run :
    (w : Sample) (frames c : ℕ) (pcm pcm' : List ℕ) (m : ChanMap)
    → 0 < frames
    → suc c ≤ 64
    → map_in_place (suc c) m.places frames pcm ≡ some pcm'
    → mappcm true pcm (frames * (suc c * bytes_of w)) (suc c) m (8 * bytes_of w) ≡ done (ok, pcm')
unfolding mappcm
mappcm_run s8 frames c pcm pcm' m h k e =
    rw
      (
        ==-ne (frames * (suc c * 1)) 0 (some_bytes s8 frames c h),
        few_channels (suc c) k,
        frames_in s8 frames c,
        e,
      )
      refl
mappcm_run s16 frames c pcm pcm' m h k e =
    rw
      (
        ==-ne (frames * (suc c * 2)) 0 (some_bytes s16 frames c h),
        few_channels (suc c) k,
        frames_in s16 frames c,
        e,
      )
      refl
mappcm_run s32 frames c pcm pcm' m h k e =
    rw
      (
        ==-ne (frames * (suc c * 4)) 0 (some_bytes s32 frames c h),
        few_channels (suc c) k,
        frames_in s32 frames c,
        e,
      )
      refl

-- With `err_on_none` the channels behind the frame's are none or are found as well.
abbrev pub FindsAll : Bool → (from to : List ℕ) → Type 0
FindsAll false from to = Unit {0}
FindsAll true [] to = Unit {0}
FindsAll true (c ∷ from) to =
    ((c ≡ 0) ⊎ ((b : ℕ) × (find_chan c to ≡ some b))) × FindsAll true from to

find_chans-ok : (e : Bool) (from to : List ℕ) → FindsAll e from to → (find_chans e from to).0 ≡ ok
unfolding find_chans
find_chans-ok e [] to h = refl
find_chans-ok false (c ∷ from) to h = ground (arith, find_chans-ok false from to tt)
find_chans-ok true (c ∷ from) to (inl e, h) = rw e (find_chans-ok true from to h)
find_chans-ok true (c ∷ from) to (inr (b, e), h) = ground (arith, find_chans-ok true from to h)

-- Where the channels of `in` are all found in `out` among as many channels, and none of them stands in
-- `in` twice: `roardsp_chanmap_calc` succeeds with either `err_on_none`, `roardsp_chanmap_mappcm` of
-- one or more frames in place, of samples of 8, 16 or 32 bits, returns 0 without writing outside its
-- buffers, and in every frame the sample of each channel then stands where `out` has that channel.
pub mappcm-moves :
    (w : Sample) (m : ChanMap) (e : Bool) (frames chans : ℕ) (pcm : List ℕ)
    → Placed chans m.in_ m.out chans
    → FindsAll e m.in_ m.out
    → 0 < chans
    → chans ≤ 64
    → 0 < frames
    → frames * chans ≤ length pcm
    → (m' : ChanMap) × (pcm' : List ℕ) × (chanmap_calc m chanmap_map e ≡ (ok, m'))
      × (mappcm true pcm (frames * (chans * bytes_of w)) chans m' (8 * bytes_of w)
          ≡ done (ok, pcm'))
      × AreMoved m.in_ m.out chans frames pcm pcm'
unfolding chanmap_calc
mappcm-moves w m e frames zero pcm p all some_chans few some_frames h = absurd (omega arith)
mappcm-moves w m e frames (suc c) pcm p all some_chans few some_frames h =
    let r = frames_lem e m.in_ m.out (suc c) p few frames pcm h in
    let m' = record m { places = (find_chans e m.in_ m.out).1 } in
    (
      m',
      r.0,
      ap (λ s. (s, m')) (find_chans-ok e m.in_ m.out all),
      mappcm_run w frames c pcm r.0 m' some_frames few r.1,
      r.2,
    )
