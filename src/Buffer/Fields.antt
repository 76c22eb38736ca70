-- ===== src/Buffer/Fields.antt =====
-- libroar/buffer.c: the members of a single buffer. roar_buffer_set_offset, roar_buffer_set_len,
-- roar_buffer_set_flag and roar_buffer_ring_new.
use Prim.Native.Nat.{bit_and}
use roaraudio.Prelude.{
  ℕ, ◌+◌, ◌-◌, ◌^◌, ◌≤◌, ◌<◌, ◌≡◌, ◌≢◌, refl, true, Option, none, some, List, arith, replicate, ltb,
  length-replicate, ==-ne, if◌then◌else◌,
}
use roaraudio.Status.{ok, failed}
use roaraudio.Buffer.{Meta, Buffer, ring, flag_nofree, set_offset, set_len, new}
use roaraudio.Buffer.Ring.{ring_new}
use roaraudio.Buffer.Ring.Bounds.{IsRing}

-- Moving the start of the user's part by at most its length keeps its end, and two moves are one.
pub set_offset-twice :
    (b : Buffer) (m n : ℕ)
    → m + n ≤ b.user_len
    → b.user_off + b.user_len < 2 ^ 64
    → (c : Buffer) × (set_offset (some b) m ≡ (ok, some c))
      × (c.user_off + c.user_len ≡ b.user_off + b.user_len)
      × (set_offset (some c) n ≡ set_offset (some b) (m + n))
unfolding set_offset
set_offset-twice b m n fits small = (
  record b { user_len = b.user_len - m; user_off = b.user_off + m },
  ground arith,
  omega arith,
  ground arith,
)

-- A buffer that does not own its block, and still has a user's part, is never enlarged: a longer
-- length is refused and nothing changes. Any other length up to the present one is taken as it is,
-- without a call of `roar_mm_realloc`.
pub set_len-bounds :
    (grown : ℕ → Option (List ℕ)) (b : Buffer) (len : ℕ)
    → bit_and b.flags flag_nofree ≢ 0
    → b.user_len ≢ 0
    → set_len grown (some b) len
      ≡ (if ltb b.user_len len then (failed, some b) else (ok, some (record b { user_len = len })))
unfolding set_len
set_len-bounds grown b len shared more = ground arith

-- Enlarging a buffer that owns its block leaves `len` as it was: afterwards the user's part can be
-- longer than the size that `len` gives for the block.
pub set_len-stale :
    (block : List ℕ) (b : Buffer) (len : ℕ)
    → bit_and b.flags flag_nofree ≡ 0
    → b.user_len ≢ 0
    → b.user_len < len
    → b.len < len
    → (c : Buffer) × (set_len (λ size. some block) (some b) len ≡ (ok, some c))
      × (c.len < c.user_len)
unfolding set_len
set_len-stale block b len own more longer past =
    (record b { block = block; user_len = len }, ground arith, omega arith)

-- what roar_buffer_ring_new makes
abbrev fresh_ring : ℕ → Buffer
fresh_ring len = record {
  len = len;
  user_len = len;
  flags = 6;
  block = replicate len 0;
  user_off = 0;
  info = ring 0 0;
  next = none;
}

-- `roar_buffer_ring_new` with both allocations made gives a ring, with both positions at its start.
pub ring_new-IsRing :
    (left : Meta) (len : ℕ) (block : List ℕ)
    → 0 < len
    → len < 2 ^ 62
    → (b : Buffer) × (v : IsRing b) × (ring_new true (some left) len true (some block)
        ≡ (ok, some b))
      × (b.user_len ≡ len)
      × (b.block ≡ replicate len 0)
      × (v.read_pos ≡ 0)
      × (v.write_pos ≡ 0)
unfolding ring_new new
ring_new-IsRing left len block pos small = (
  fresh_ring len,
  record {
    read_pos = 0;
    write_pos = 0;
    flag = omega arith;
    info = refl;
    read_in = omega arith;
    write_in = omega arith;
    pos = pos;
    block = omega (arith, length-replicate {0} {A = ℕ} len 0);
    small = omega (arith, length-replicate {0} {A = ℕ} len 0);
  },
  rw (==-ne len 0 (omega arith)),
  refl,
  refl,
  refl,
  refl,
)
