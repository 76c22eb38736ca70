-- ===== src/Buffer/Ring/Bounds.antt =====
-- roar_buffer_ring_read and roar_buffer_ring_write of libroar/buffer.c: the ring's invariant, and
-- that no transfer leaves the user's part of the block.
use Prim.Native.Nat.{bit_and}
use roaraudio.Prelude.{
  ℕ, ◌+◌, ◌-◌, ◌^◌, ◌≤◌, ◌<◌, ◌≡◌, ◌≢◌, refl, ◌∙◌, ap, true, false, none, some, List, arith, length,
  take, length-take, ltb,
}
use native.Mathlib.Decide.{dec_lt}
use roaraudio.Status.{ok}
use roaraudio.Memory.{
  add_size, sub_size, slice, copy, length-copy, length-slice, SameOutside, copy-SameOutside,
  SameOutside-trans,
}
use roaraudio.Buffer.{Buffer, ring, flag_ring}
use roaraudio.Buffer.Ring.{
  ring_read, ring_write, read_bytes, write_bytes, wrap_pos, next_pos, refused, put_at, get_at,
}

-- A ring: the flag is set, `meta` holds two positions of at most `user_len`, and the user's part
-- lies within the block. `small` keeps the `size_t` sums from wrapping.
pub record IsRing (b : Buffer) : Type 0 where
  pub read_pos : ℕ
  pub write_pos : ℕ
  pub flag : bit_and b.flags flag_ring ≢ 0
  pub info : b.info ≡ ring read_pos write_pos
  pub read_in : read_pos ≤ b.user_len
  pub write_in : write_pos ≤ b.user_len
  pub pos : 0 < b.user_len
  pub block : b.user_off + b.user_len ≤ length b.block
  pub small : length b.block < 2 ^ 62

-- A transfer of `n` bytes from `pos` on, over a buffer whose user part lies within the block.
pub record Fits (b : Buffer) (pos n : ℕ) : Type 0 where
  pub start : pos < b.user_len
  pub count : n ≤ b.user_len
  pub inside : b.user_off + b.user_len ≤ length b.block
  pub small : length b.block < 2 ^ 62

module _ {b : Buffer} {pos n : ℕ} (f : Fits b pos n) where
  pub write_bytes-straight :
      (src : List ℕ)
      → n + pos ≤ b.user_len
      → write_bytes b pos n src ≡ copy b.block (b.user_off + pos) (take n src)
  unfolding write_bytes
  write_bytes-straight src h =
      let test : ltb b.user_len (add_size n pos) ≡ false = ground arith in
      let at : add_size b.user_off pos ≡ b.user_off + pos = omega arith in rw (test, at)

  pub write_bytes-wrapped :
      (src : List ℕ)
      → b.user_len < n + pos
      → write_bytes b pos n src
        ≡ copy
            (copy b.block (b.user_off + pos) (take (b.user_len - pos) src))
            b.user_off
            (take (n + pos - b.user_len) src)
  unfolding write_bytes
  write_bytes-wrapped src h =
      let test : ltb b.user_len (add_size n pos) ≡ true = ground arith in
      let at : add_size b.user_off pos ≡ b.user_off + pos = omega arith in
      let first : sub_size b.user_len pos ≡ b.user_len - pos = omega arith in
      let second : sub_size (add_size n pos) b.user_len ≡ n + pos - b.user_len = omega arith in
      rw (test, at, first, second)

  pub read_bytes-straight :
      (out : List ℕ)
      → n + pos ≤ b.user_len
      → read_bytes b pos n out ≡ copy out 0 (slice b.block (b.user_off + pos) n)
  unfolding read_bytes
  read_bytes-straight out h =
      let test : ltb b.user_len (add_size n pos) ≡ false = ground arith in
      let at : add_size b.user_off pos ≡ b.user_off + pos = omega arith in rw (test, at)

  pub read_bytes-wrapped :
      (out : List ℕ)
      → b.user_len < n + pos
      → read_bytes b pos n out
        ≡ copy
            (copy out 0 (slice b.block (b.user_off + pos) (b.user_len - pos)))
            0
            (slice b.block b.user_off (n + pos - b.user_len))
  unfolding read_bytes
  read_bytes-wrapped out h =
      let test : ltb b.user_len (add_size n pos) ≡ true = ground arith in
      let at : add_size b.user_off pos ≡ b.user_off + pos = omega arith in
      let first : sub_size b.user_len pos ≡ b.user_len - pos = omega arith in
      let second : sub_size (add_size n pos) b.user_len ≡ n + pos - b.user_len = omega arith in
      rw (test, at, first, second)

  -- A write changes nothing outside the user's part of the block.
  pub write_bytes-SameOutside :
      (src : List ℕ)
      → n ≤ length src
      → SameOutside b.user_off (b.user_off + b.user_len) b.block (write_bytes b pos n src)
  write_bytes-SameOutside src have = elim (dec_lt b.user_len (n + pos)) [
    | yes h ↦
        let first = take (b.user_len - pos) src in
        let second = take (n + pos - b.user_len) src in
        let p =
          copy-SameOutside b.user_off (b.user_off + b.user_len) b.block (b.user_off + pos) first
            f.inside (omega arith) (omega (arith, length-take (b.user_len - pos) src)) in
        rw (write_bytes-wrapped src h) (
          SameOutside-trans p (
            copy-SameOutside b.user_off (b.user_off + b.user_len) _ b.user_off second
              (omega (arith, f.inside, p.size)) (omega arith)
              (omega (arith, length-take (n + pos - b.user_len) src))))
    | no h ↦ rw (write_bytes-straight src (omega arith)) (
        copy-SameOutside b.user_off (b.user_off + b.user_len) b.block (b.user_off + pos)
          (take n src) f.inside (omega arith) (omega (arith, length-take n src)))
  ]

  -- A read of at most as many bytes as the caller's memory has stays within that memory.
  pub length-read_bytes :
      (out : List ℕ) → n ≤ length out → length (read_bytes b pos n out) ≡ length out
  length-read_bytes out have = elim (dec_lt b.user_len (n + pos)) [
    | yes h ↦
        let first = slice b.block (b.user_off + pos) (b.user_len - pos) in
        let second = slice b.block b.user_off (n + pos - b.user_len) in
        let one : length first ≡ b.user_len - pos = length-slice b.block _ _ (omega arith) in
        let two : length second ≡ n + pos - b.user_len = length-slice b.block _ _ (omega arith) in
        let p : length (copy out 0 first) ≡ length out = length-copy out 0 first (omega arith) in
        rw (read_bytes-wrapped out h) (length-copy (copy out 0 first) 0 second (omega arith) ∙ p)
    | no h ↦
        let all : length (slice b.block (b.user_off + pos) n) ≡ n =
          length-slice b.block _ _ (omega arith) in
        rw (read_bytes-straight out (omega arith)) (length-copy out 0 _ (omega arith))
  ]

module _ (b : Buffer) (pos n : ℕ) where
  -- A position that is wrapped and advanced stays a position.
  wrap_pos-lt :
      pos ≤ b.user_len → 0 < b.user_len → b.user_len < 2 ^ 62 → wrap_pos b.user_len pos < b.user_len
  wrap_pos-lt h p s = ground arith

  pub next_pos-le :
      pos < b.user_len
      → n ≤ b.user_len
      → b.user_len < 2 ^ 62
      → next_pos b.user_len pos n ≤ b.user_len
  next_pos-le h p s = ground arith

-- What the guards let through.
refused-none :
    (b : Buffer) (n : ℕ)
    → bit_and b.flags flag_ring ≢ 0
    → n ≢ 0
    → n ≤ b.user_len
    → refused b true n ≡ none
unfolding refused
refused-none b n r z fits = ground arith

module _ {b : Buffer} (v : IsRing b) where
  pub small_user : b.user_len < 2 ^ 62
  small_user = omega arith

  pub still_inside :
      (block : List ℕ) → length block ≡ length b.block → b.user_off + b.user_len ≤ length block
  still_inside same = omega arith

  pub still_small : (block : List ℕ) → length block ≡ length b.block → length block < 2 ^ 62
  still_small same = omega arith

module _ {b : Buffer} (v : IsRing b) {n : ℕ} (some_bytes : n ≢ 0) (fits : n ≤ b.user_len) where
  pub Fits-write : Fits b (wrap_pos b.user_len v.write_pos) n
  Fits-write = record {
    start = wrap_pos-lt b v.write_pos n v.write_in v.pos (omega arith);
    count = fits;
    inside = v.block;
    small = v.small;
  }

  pub Fits-read : Fits b (wrap_pos b.user_len v.read_pos) n
  Fits-read = record {
    start = wrap_pos-lt b v.read_pos n v.read_in v.pos (omega arith);
    count = fits;
    inside = v.block;
    small = v.small;
  }

  -- the ring after a write
  abbrev pub written : List ℕ → Buffer
  written src = record b {
    info = ring v.read_pos (next_pos b.user_len (wrap_pos b.user_len v.write_pos) n);
    block = write_bytes b (wrap_pos b.user_len v.write_pos) n src;
  }

  pub ring_write-written :
      (src : List ℕ) → ring_write (some b) (some src) n ≡ (ok, some (written src))
  unfolding ring_write
  ring_write-written src =
      rw (refused-none b n v.flag some_bytes fits, ring_write) (ap (put_at b src n) v.info)

  -- the ring after a read
  abbrev pub drained : Buffer
  drained = record b {
    info = ring (next_pos b.user_len (wrap_pos b.user_len v.read_pos) n) v.write_pos;
  }

  pub ring_read-drained :
      (out : List ℕ)
      → ring_read (some b) (some out) n
        ≡ (ok, some drained, some (read_bytes b (wrap_pos b.user_len v.read_pos) n out))
  unfolding ring_read
  ring_read-drained out =
      rw (refused-none b n v.flag some_bytes fits, ring_read) (ap (get_at b out n) v.info)

  -- It is a ring again, and its read position is the old one.
  abbrev pub written-IsRing : (src : List ℕ) → n ≤ length src → IsRing (written src)
  written-IsRing src have =
      let same = write_bytes-SameOutside Fits-write src have in
      record {
        read_pos = v.read_pos;
        write_pos = next_pos b.user_len (wrap_pos b.user_len v.write_pos) n;
        flag = v.flag;
        info = refl;
        read_in = v.read_in;
        write_in =
            next_pos-le b (wrap_pos b.user_len v.write_pos) n Fits-write.start fits (small_user v);
        pos = v.pos;
        block = still_inside v _ same.size;
        small = still_small v _ same.size;
      }

-- A write of at most `user_len` bytes into a ring succeeds, leaves a ring, changes no byte outside
-- the user's part of the block, and leaves the read position alone.
pub ring_write-IsRing :
    (b : Buffer) (src : List ℕ) (n : ℕ) (v : IsRing b)
    → n ≢ 0
    → n ≤ b.user_len
    → n ≤ length src
    → (b' : Buffer) × (v' : IsRing b') × (ring_write (some b) (some src) n ≡ (ok, some b'))
      × SameOutside b.user_off (b.user_off + b.user_len) b.block b'.block
      × (v'.read_pos ≡ v.read_pos)
ring_write-IsRing b src n v z fits have = (
  written v z fits src,
  written-IsRing v z fits src have,
  ring_write-written v z fits src,
  write_bytes-SameOutside (Fits-write v z fits) src have,
  refl,
)

-- A read of at most `user_len` bytes from a ring succeeds, leaves a ring with the same block and
-- write position, and stays within the caller's memory.
ring_read-IsRing :
    (b : Buffer) (out : List ℕ) (n : ℕ) (v : IsRing b)
    → n ≢ 0
    → n ≤ b.user_len
    → n ≤ length out
    → (b' : Buffer) × (v' : IsRing b') × (out' : List ℕ) × (ring_read (some b) (some out) n
        ≡ (ok, some b', some out'))
      × (b'.block ≡ b.block)
      × (v'.write_pos ≡ v.write_pos)
      × (length out' ≡ length out)
ring_read-IsRing b out n v z fits have =
    let f = Fits-read v z fits in
    (
      drained v z fits,
      record {
        read_pos = next_pos b.user_len (wrap_pos b.user_len v.read_pos) n;
        write_pos = v.write_pos;
        flag = v.flag;
        info = refl;
        read_in = next_pos-le b _ n f.start fits (omega arith);
        write_in = v.write_in;
        pos = v.pos;
        block = v.block;
        small = v.small;
      },
      _,
      ring_read-drained v z fits out,
      refl,
      refl,
      length-read_bytes f out have,
    )
