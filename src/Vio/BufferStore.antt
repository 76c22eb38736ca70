-- ===== src/Vio/BufferStore.antt =====
-- libroar/vio_buffer_store.c: a backend that keeps what is written in one chain of buffers, and
-- gives what is read from another. Its state is the heap and the two pointers. `buf` is never NULL
-- where `count` is not 0, and `vio` never NULL.

pub mod Laws
mod Tests
use roaraudio.Prelude.{
  ℕ, zero, suc, ◌≡◌, Bool, Option, none, some, List, [], ◌∷◌, ◌==◌, length, if◌then◌else◌,
}
use roaraudio.Status.{Status, ok, failed}
use roaraudio.Memory.{copy}
use roaraudio.Buffer.{Buffer, Meta, Ptr, new}
use roaraudio.Buffer.Chain.{
  Heap, Cmd, Run, done, fault, no_fuel, ◌>>=◌, and_then, pure, update, store, free, add, shift_out,
  Shifted,
}

-- `struct roar_vio_buffer_store`: `in` is what was written, `out` what is to be read.
pub record Store : Type 0 where
  pub in_buf : Ptr
  pub out_buf : Ptr

-- `roar_vio_open_buffer_store`, whose memset leaves two NULL pointers; `room` says that the memory
-- for the struct is given.
unfoldable pub open_store : (given room : Bool) → Option Store
open_store given room =
    if given then (if room then some (record { in_buf = none; out_buf = none }) else none) else none

-- `if ( p != NULL ) if ( roar_buffer_free(p) != 0 ) ret = -1;`
abbrev pub close_part : (fuel : ℕ) → Ptr → Cmd Status
close_part fuel none = pure ok
close_part fuel (some a) = free fuel (some a)

abbrev pub both_ok : Status → Status → Status
both_ok ok r = r
both_ok failed r = failed

-- `roar_vio_buffer_store_close`. The two pointers are not set to NULL.
unfoldable pub close_store : (fuel : ℕ) → Store → Cmd Status
close_store fuel self = do
  r ← close_part fuel self.in_buf
  r' ← close_part fuel self.out_buf
  pure (both_ok r r')

-- The rest of roar_vio_buffer_store_read where bytes are wanted and `self->out` is the last pointer.
abbrev pub read_from : (fuel : ℕ) → ℕ → Store → Ptr → Cmd (Option (List ℕ) × Store)
read_from fuel count self none = pure (some [], self)
read_from fuel count self (some a) = do
  r ← shift_out fuel (some a) count
  elim r [ none ↦ pure (none, self) | some s ↦ pure (some s.out, record self { out_buf = s.buf }) ]

-- `roar_vio_buffer_store_read`: the bytes that are stored at `buf`, -1 if `none`.
unfoldable pub store_read : (fuel : ℕ) → ℕ → Store → Cmd (Option (List ℕ) × Store)
store_read fuel count self =
    if count == 0 then pure (some [], self) else read_from fuel count self self.out_buf

-- What `roar_mm_malloc` gives for a new struct: its address, and what stands in its `meta`.
pub record Room : Type 0 where
  pub address : ℕ
  pub info : Meta

-- `roar_buffer_new_data` with the struct at the address that `room` gives.
unfoldable pub new_at : Option Room → Option (List ℕ) → ℕ → Cmd (Option (ℕ × Buffer))
new_at none block len = pure none
new_at (some room) block len = elim (new (some room.info) len block).1 [
  | none ↦ pure none
  | some b ↦
      (λ h. done (some (room.address, b)) (record h { cell = update h.cell room.address (some b) }))
]

-- The rest of roar_vio_buffer_store_write once the new buffer is there and has its bytes.
unfoldable pub append : (fuel : ℕ) → ℕ → ℕ → Store → Cmd (Option ℕ × Store)
append fuel a count self = elim self.in_buf [
  | none ↦ pure (some count, record self { in_buf = some a })
  | some first ↦ (do
    r ← add fuel (some first) (some a)
    elim r [
      | ok ↦ pure (some count, self)
      | failed ↦ (free fuel (some a) >>= λ _. pure (none, self))
    ])
]

-- `roar_vio_buffer_store_write`: the number of bytes taken, -1 if `none`. `room` and `block` are what
-- the two calls of `roar_mm_malloc` give.
unfoldable pub store_write :
    (fuel : ℕ) → Option Room → Option (List ℕ) → List ℕ → Store → Cmd (Option ℕ × Store)
unfolding append
store_write fuel room block buf self = if length buf == 0 then pure (some 0, self) else (do
  r ← new_at room block (length buf)
  elim r [
    | none ↦ pure (none, self)
    | some (a, b) ↦
        (store a (record b { block = copy b.block 0 buf }) >>= λ _. append fuel a (length buf) self)
  ])
