-- ===== src/Buffer/Ring/Transfer.antt =====
-- What roar_buffer_ring_read of libroar/buffer.c gives of what roar_buffer_ring_write stored.
use Prim.Native.Nat.{max}
use roaraudio.Prelude.{
  ℕ, zero, suc, ◌+◌, ◌-◌, ◌≤◌, ◌<◌, ◌≡◌, ◌≢◌, refl, sym, ◌∙◌, ap, ap₂, some, List, [], ◌∷◌, ◌++◌,
  arith, length, take, drop, length-take,
}
use mathlib.Core.List.{append-nil}
use native.Mathlib.Nat.{zero-add}
use roaraudio.Status.{ok}
use roaraudio.Memory.{slice, copy, length-copy, slice-copy_self, slice-copy_after}
use roaraudio.Prelude.TakeDrop.{take_all, drop_all}
use roaraudio.Buffer.{Buffer, Meta}
use roaraudio.Buffer.Ring.{ring_read, ring_write, read_bytes, write_bytes, wrap_pos}
use roaraudio.Buffer.Ring.Bounds.{
  IsRing, written-IsRing, Fits, Fits-write, written, write_bytes-SameOutside, ring_write-written,
  write_bytes-SameOutside, ring_read-drained, drained, write_bytes-straight, write_bytes-wrapped,
  read_bytes-straight, read_bytes-wrapped,
}

copy-front : (mem src : List ℕ) → copy mem 0 src ≡ src ++ drop (length src) mem
unfolding copy
copy-front mem src = rw (zero-add (length src))

-- A copy over a whole block.
copy-whole : (out src : List ℕ) → length out ≡ length src → copy out 0 src ≡ src
copy-whole out src h =
    copy-front out src
    ∙ ap (λ l. src ++ l) (drop_all out (length src) (omega arith))
    ∙ rw append-nil

overlay :
    (src out : List ℕ) (k r m : ℕ)
    → m ≡ max k r
    → m ≤ length src
    → length src ≤ length out
    → take r src ++ drop r (take k src ++ drop k out) ≡ take m src ++ drop m out
overlay src out k zero m e h l =
    let same : k ≡ m = omega arith in ap (λ j. take j src ++ drop j out) same
overlay src out zero (suc r) m e h l =
    let same : suc r ≡ m = omega arith in ap (λ j. take j src ++ drop j out) same
overlay src out (suc k) (suc r) zero e h l = absurd (omega arith)
overlay [] out (suc k) (suc r) (suc m) e h l = absurd (omega arith)
overlay (x ∷ src) [] (suc k) (suc r) (suc m) e h l = absurd (omega arith)
overlay (x ∷ src) (y ∷ out) (suc k) (suc r) (suc m) e h l =
    ap (λ t. x ∷ t) (overlay src out k r m (omega arith) (omega arith) (omega arith))

-- Two beginnings of `src`, the second copied over the first, come to the longer of the two.
copy-overlay :
    (out src : List ℕ) (k r : ℕ)
    → k ≤ length src
    → r ≤ length src
    → length src ≤ length out
    → copy (copy out 0 (take k src)) 0 (take r src) ≡ take (max k r) src ++ drop (max k r) out
copy-overlay out src k r hk hr hl =
    let second : length (take r src) ≡ r = omega (arith, length-take r src) in
    let first : length (take k src) ≡ k = omega (arith, length-take k src) in
    copy-front (copy out 0 (take k src)) (take r src)
    ∙ ap₂ (λ n mem. take r src ++ drop n mem) second (copy-front out (take k src))
    ∙ ap (λ n. take r src ++ drop r (take k src ++ drop n out)) first
    ∙ overlay src out k r (max k r) refl (omega arith) hl

-- A write of all of `src` at `pos`, and a read of as many bytes from there; `i` is the ring's `meta`
-- between the two.
module _ {b : Buffer} {pos : ℕ} (src : List ℕ) (f : Fits b pos (length src)) (i : Meta)
    (out : List ℕ) (room : length out ≡ length src) where
  abbrev after : Buffer
  after = record b { info = i; block = write_bytes b pos (length src) src }

  after-Fits : Fits after pos (length src)
  after-Fits =
      let same = write_bytes-SameOutside f src (omega arith) in
      record {
        start = f.start;
        count = f.count;
        inside = omega (arith, same.size, f.inside);
        small = omega (arith, same.size, f.small);
      }

  read_bytes-write_bytes :
      length src + pos ≤ b.user_len → read_bytes after pos (length src) out ≡ src
  read_bytes-write_bytes h =
      let stored : write_bytes b pos (length src) src ≡ copy b.block (b.user_off + pos) src =
        write_bytes-straight f src h
        ∙ ap (copy b.block (b.user_off + pos)) (take_all src (length src) (omega arith)) in
      let found : slice (write_bytes b pos (length src) src) (b.user_off + pos) (length src) ≡ src =
        rw stored (slice-copy_self b.block (b.user_off + pos) src (omega (arith, f.inside))) in
      read_bytes-straight after-Fits out h ∙ ap (copy out 0) found ∙ copy-whole out src room

  -- the bytes before the end of the user's part, and those that start over
  abbrev front : ℕ
  front = b.user_len - pos

  abbrev back : ℕ
  back = length src + pos - b.user_len

  read_bytes-write_bytes_wrapped :
      b.user_len < length src + pos
      → read_bytes after pos (length src) out
        ≡ take (max front back) src ++ drop (max front back) out
  read_bytes-write_bytes_wrapped h =
      let one : length (take front src) ≡ front =
        omega (arith, length-take front src, f.start, f.count) in
      let two : length (take back src) ≡ back =
        omega (arith, length-take back src, f.start, f.count) in
      let mem = copy b.block (b.user_off + pos) (take front src) in
      let size : length mem ≡ length b.block =
        length-copy b.block (b.user_off + pos) (take front src)
          (omega (arith, f.inside, f.start)) in
      let stored = write_bytes-wrapped f src h in
      let got_front : slice (copy mem b.user_off (take back src)) (b.user_off + pos) front
          ≡ take front src =
        slice-copy_after mem b.user_off (take back src) (b.user_off + pos) front
          (omega (arith, f.inside, f.start, f.count)) (omega (arith, f.count))
        ∙ ap (slice mem (b.user_off + pos)) (sym one)
        ∙ slice-copy_self b.block (b.user_off + pos) (take front src)
            (omega (arith, f.inside, f.start)) in
      let got_back : slice (copy mem b.user_off (take back src)) b.user_off back ≡ take back src =
        ap (slice (copy mem b.user_off (take back src)) b.user_off) (sym two)
        ∙ slice-copy_self mem b.user_off (take back src)
            (omega (arith, f.inside, f.start, f.count)) in
      read_bytes-wrapped after-Fits out h
      ∙ rw (stored, got_front, got_back)
          (copy-overlay out src front back (omega (arith, f.start))
            (omega (arith, f.start, f.count)) (omega arith))

nonzero {ℓ} : {A : Type ℓ} (l : List A) → l ≢ [] → length l ≢ 0
nonzero [] h = absurd (h refl)
nonzero (x ∷ l) h = omega arith

-- An empty ring, into which all of `src` is written, and from which as much is read into `out`.
module _ (b : Buffer) (v : IsRing b) (src out : List ℕ) (some_bytes : src ≢ [])
    (empty : wrap_pos b.user_len v.read_pos ≡ wrap_pos b.user_len v.write_pos)
    (fits : length src ≤ b.user_len) (room : length out ≡ length src) where
  -- where the write starts
  abbrev pub start : ℕ
  start = wrap_pos b.user_len v.write_pos

  -- the two calls: how the second ends, and what it leaves at `out`
  abbrev pub Gives : List ℕ → Type 0
  Gives out' =
      (b' : Buffer) × (b'' : Buffer) × (ring_write (some b) (some src) (length src) ≡ (ok, some b'))
      × (ring_read (some b') (some out) (length src) ≡ (ok, some b'', some out'))

  gives :
      (out' : List ℕ)
      → read_bytes (written v (nonzero src some_bytes) fits src) start (length src) out ≡ out'
      → Gives out'
  gives out' e =
      let z = nonzero src some_bytes in
      let v' = written-IsRing v z fits src (omega arith) in
      let last = drained v' z fits in
      (
        written v z fits src,
        last,
        ring_write-written v z fits src,
        ring_read-drained v' z fits out
            ∙ ap (λ p. (ok, some last, some (read_bytes (written v z fits src) p (length src) out)))
                empty
            ∙ ap (λ o. (ok, some last, some o)) e,
      )

  -- Into an empty ring, whose two positions are the same, some bytes are written, at least one, no more
  -- than it holds, and not up to beyond the end of the user's part; then a read of as many bytes into
  -- memory of that size gives what was written. Both calls return 0.
  pub ring_read-ring_write : length src + start ≤ b.user_len → Gives src
  ring_read-ring_write h =
      gives src
        (read_bytes-write_bytes src (Fits-write v (nonzero src some_bytes) fits) _ out room h)

  -- If it does, both calls copy twice from or to the start of the caller's memory: only the longer
  -- of the two pieces arrives, and the bytes of `out` behind it, at least one, stay what they were.
  ring_read-ring_write_wrapped :
      b.user_len < length src + start
      → let m = max (b.user_len - start) (length src + start - b.user_len) in
        Gives (take m src ++ drop m out) × (m < length src)
  ring_read-ring_write_wrapped h =
      let f = Fits-write v (nonzero src some_bytes) fits in
      (gives _ (read_bytes-write_bytes_wrapped src f _ out room h), omega (arith, f.start, f.count))
