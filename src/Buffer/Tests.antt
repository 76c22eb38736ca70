-- ===== src/Buffer/Tests.antt =====
-- The functions of libroar/buffer.c on small buffers, and the theorems there.
use roaraudio.Prelude.{◌≡◌, refl, none, some, [], ◌∷◌, arith, replicate}
use roaraudio.Memory.{SameOutside, copy, slice}
use roaraudio.Status.{ok}
use roaraudio.Buffer.{Buffer, vp, ring}
use roaraudio.Buffer.Ring.{refused, ring_read, ring_write}
use roaraudio.Buffer.Ring.Bounds.{IsRing, ring_write-IsRing}
use roaraudio.Buffer.Ring.Transfer.{ring_read-ring_write}

-- a ring of eight bytes, both of whose positions are 5
abbrev ring5 : Buffer
ring5 = record {
  len = 8;
  user_len = 8;
  flags = 6;
  block = replicate 8 0;
  user_off = 0;
  info = ring 5 5;
  next = none;
}

abbrev ring5-IsRing : IsRing ring5
ring5-IsRing = record {
  read_pos = 5;
  write_pos = 5;
  flag = omega arith;
  info = refl;
  read_in = omega arith;
  write_in = omega arith;
  pos = omega arith;
  block = omega arith;
  small = omega arith;
}

-- What six bytes from position 5 on leave: the first three bytes of `src` twice.
ring_write_test :
    ring_write (some ring5) (some (1 ∷ 2 ∷ 3 ∷ 4 ∷ 5 ∷ 6 ∷ [])) 6
    ≡ (ok, some (record ring5 { block = 1 ∷ 2 ∷ 3 ∷ 0 ∷ 0 ∷ 1 ∷ 2 ∷ 3 ∷ []; info = ring 5 3 }))
unfolding ring_write refused copy slice
ring_write_test = refl

ring_write-IsRing_example :
    (b' : Buffer) × (v' : IsRing b') × (ring_write (some ring5) (some (1 ∷ 2 ∷ [])) 2
      ≡ (ok, some b'))
    × SameOutside 0 8 (replicate 8 0) b'.block
    × (v'.read_pos ≡ 5)
ring_write-IsRing_example =
    ring_write-IsRing ring5 (1 ∷ 2 ∷ []) 2 ring5-IsRing (omega arith) (omega arith) (omega arith)

ring_read-ring_write_example :
    (b' : Buffer) × (b'' : Buffer) × (ring_write (some ring5) (some (1 ∷ 2 ∷ [])) 2 ≡ (ok, some b'))
    × (ring_read (some b') (some (9 ∷ 9 ∷ [])) 2 ≡ (ok, some b'', some (1 ∷ 2 ∷ [])))
ring_read-ring_write_example =
    ring_read-ring_write ring5 ring5-IsRing (1 ∷ 2 ∷ []) (9 ∷ 9 ∷ []) (ground arith) refl
      (omega arith) refl (omega arith)

-- a buffer that does not own its block of four bytes
abbrev borrowed : Buffer
borrowed = record {
  len = 4;
  user_len = 4;
  flags = 1;
  block = 1 ∷ 2 ∷ 3 ∷ 4 ∷ [];
  user_off = 0;
  info = vp none;
  next = none;
}
