-- ===== src/Buffer/Ring.antt =====
-- libroar/buffer.c: the buffer as a ring of bytes, roar_buffer_ring_new, roar_buffer_ring_read and
-- roar_buffer_ring_write.
pub mod Bounds
pub mod Transfer
use Prim.Native.Nat.{bit_and, bit_or}
use roaraudio.Prelude.{
  ℕ, ◌+◌, ◌-◌, ◌≡◌, Bool, true, false, Option, none, some, List, [], ◌∷◌, ◌==◌, ltb, leb,
  if◌then◌else◌, not, ◌&&◌, ◌||◌, length, take, drop, replicate,
}
use roaraudio.Status.{Status, ok, failed}
use roaraudio.Memory.{add_size, sub_size, slice, copy}
use roaraudio.Buffer.{Buffer, Meta, ring, vp, i32, flag_ring, flag_free_running, new}

-- `roar_buffer_ring_new`. `given` says that `buf` is not NULL; `room` and `block` are what the two
-- allocations gave. The result is `*buf`.
unfoldable pub ring_new :
    (given : Bool) → (room : Option Meta) → ℕ → Bool → Option (List ℕ) → Status × Option Buffer
ring_new given room len free_running block =
    if not given || len == 0
    then (failed, none)
    else if not free_running
    then (failed, none)
    else elim (new room len block).1 [
      | none ↦ (failed, none)
      | some n ↦ (
        ok,
        some (record n {
          flags = bit_or (bit_or n.flags flag_ring) flag_free_running;
          info = ring 0 0;
          block = replicate n.len 0;
        }),
      )
    ]

-- The position from which a transfer starts: one that has run to the end starts over.
abbrev pub wrap_pos : ℕ → ℕ → ℕ
wrap_pos user_len pos = if leb user_len pos then sub_size pos user_len else pos

-- Where a transfer of `n` bytes from `pos` on leaves the position.
abbrev pub next_pos : ℕ → ℕ → ℕ → ℕ
next_pos user_len pos n =
    if ltb user_len (add_size n pos) then sub_size (add_size pos n) user_len else add_size pos n

-- The guards that both functions begin with, after those on NULL: what is returned if the function
-- ends here.
unfoldable pub refused : Buffer → (have_data : Bool) → ℕ → Option Status
refused b have_data n =
    if not have_data && not (n == 0)
    then some failed
    else if bit_and b.flags flag_ring == 0
    then some failed
    else if n == 0
    then some ok
    else if ltb b.user_len n
    then some failed
    else none

-- What the two calls of memcpy in roar_buffer_ring_read leave at `data`, from position `pos` on.
unfoldable pub read_bytes : Buffer → ℕ → ℕ → List ℕ → List ℕ
read_bytes b pos n out =
    if ltb b.user_len (add_size n pos)
    then copy (copy out 0 (slice b.block (add_size b.user_off pos) (sub_size b.user_len pos))) 0
        (slice b.block b.user_off (sub_size (add_size n pos) b.user_len))
    else copy out 0 (slice b.block (add_size b.user_off pos) n)

-- The transfer of roar_buffer_ring_read, once the guards are passed. ROAR_BUFFER_FLAG_RING promises
-- that `meta` holds the ring's positions; what is read of another member is not modelled.
unfoldable pub get_at : Buffer → List ℕ → ℕ → Meta → Status × Option Buffer × Option (List ℕ)
unfolding read_bytes
get_at b out n (ring read_pos write_pos) =
    let pos = wrap_pos b.user_len read_pos in
    (
      ok,
      some (record b { info = ring (next_pos b.user_len pos n) write_pos }),
      some (read_bytes b pos n out),
    )
get_at b out n (vp p) = (failed, some b, some out)
get_at b out n (i32 x) = (failed, some b, some out)

-- `roar_buffer_ring_read`. `out` is the memory at `data`, NULL if `none`; the result holds the buffer
-- and that memory.
unfoldable pub ring_read :
    Option Buffer → Option (List ℕ) → ℕ → Status × Option Buffer × Option (List ℕ)
unfolding get_at
ring_read none out n = (failed, none, out)
ring_read (some b) none n = (elim (refused b false n) [ none ↦ failed | some r ↦ r ], some b, none)
ring_read (some b) (some out) n = elim (refused b true n) [
  | some r ↦ (r, some b, some out)
  | none ↦ get_at b out n b.info
]

-- What the two calls of memcpy in roar_buffer_ring_write leave in the block.
unfoldable pub write_bytes : Buffer → ℕ → ℕ → List ℕ → List ℕ
write_bytes b pos n src =
    if ltb b.user_len (add_size n pos)
    then copy (copy b.block (add_size b.user_off pos) (take (sub_size b.user_len pos) src))
        b.user_off (take (sub_size (add_size n pos) b.user_len) src)
    else copy b.block (add_size b.user_off pos) (take n src)

-- The transfer of roar_buffer_ring_write, once the guards are passed.
unfoldable pub put_at : Buffer → List ℕ → ℕ → Meta → Status × Option Buffer
unfolding write_bytes
put_at b src n (ring read_pos write_pos) =
    let pos = wrap_pos b.user_len write_pos in
    (
      ok,
      some (record b {
        info = ring read_pos (next_pos b.user_len pos n);
        block = write_bytes b pos n src;
      }),
    )
put_at b src n (vp p) = (failed, some b)
put_at b src n (i32 x) = (failed, some b)

-- `roar_buffer_ring_write`; `src` is the memory at `data`.
unfoldable pub ring_write : Option Buffer → Option (List ℕ) → ℕ → Status × Option Buffer
unfolding put_at
ring_write none src n = (failed, none)
ring_write (some b) none n = (elim (refused b false n) [ none ↦ failed | some r ↦ r ], some b)
ring_write (some b) (some src) n = elim (refused b true n) [
  | some r ↦ (r, some b)
  | none ↦ put_at b src n b.info
]
