-- ===== src/Buffer.antt =====
-- libroar/buffer.c: `struct roar_buffer` and the functions on a single buffer. A buffer that is
-- NULL is `none`; a function that updates `*buf` returns it beside its `int`.
pub mod Fields
pub mod Ring
pub mod Chain
mod Tests
use Prim.Native.Nat.{bit_and, bit_or}
use roaraudio.Prelude.{
  ℕ, ◌+◌, ◌-◌, ◌^◌, ◌≡◌, Bool, true, false, Option, none, some, List, [], ◌∷◌, ◌++◌, ◌==◌, ltb,
  if◌then◌else◌, not, ◌&&◌, length, take, replicate,
}
use roaraudio.Status.{Status, ok, failed}
use roaraudio.Memory.{add_size, sub_size}

-- ROAR_BUFFER_FLAG_NOFREE, ROAR_BUFFER_FLAG_RING and ROAR_BUFFER_FLAG_FREE_RUNNING
abbrev pub flag_nofree : ℕ
flag_nofree = 1

abbrev pub flag_ring : ℕ
flag_ring = 2

abbrev pub flag_free_running : ℕ
flag_free_running = 4

-- NULL is `none`.
abbrev pub Ptr : Type 0
Ptr = Option ℕ

-- The union `meta`: the member that was stored last.
pub data Meta : Type 0 where
  vp : Ptr → Meta
  i32 : ℕ → Meta
  ring : (read_pos write_pos : ℕ) → Meta

-- `struct roar_buffer`. `block` is the memory at `data`; `user_off` is `user_data - data`.
pub record Buffer : Type 0 where
  pub len : ℕ
  pub user_len : ℕ
  pub flags : ℕ
  pub block : List ℕ
  pub user_off : ℕ
  pub info : Meta
  pub next : Ptr

-- `roar_buffer_get_flag`: -1 is `none`.
unfoldable pub get_flag : Option Buffer → ℕ → Option ℕ
get_flag none flag = none
get_flag (some b) flag = some (bit_and b.flags flag)

-- `roar_buffer_set_flag`
unfoldable pub set_flag : Option Buffer → ℕ → Bool → Status × Option Buffer
set_flag none flag reset = (failed, none)
set_flag (some b) flag reset =
    let raised = bit_or b.flags flag in
    (ok, some (record b { flags = if reset then raised - flag else raised }))

-- `roar_buffer_new_no_ma`. `room` is what `roar_mm_malloc` gives for the struct: NULL if `none`, or a
-- struct with anything in its `meta`, which is not set here; `block` is the memory
-- that the caller hands over, NULL if `none`. The result is what `*buf` is set to; where `block` is
-- NULL, `*buf` is left as it was, and no caller reads it.
unfoldable pub new_no_ma : (room : Option Meta) → ℕ → Option (List ℕ) → Status × Option Buffer
new_no_ma room len none = (failed, none)
new_no_ma none len (some block) = (failed, none)
new_no_ma (some info) len (some block) = (
  ok,
  some (record {
    len = len;
    user_len = len;
    flags = flag_nofree;
    block = block;
    user_off = 0;
    info = info;
    next = none;
  }),
)

-- `roar_buffer_new_data` and `roar_buffer_new`: `block` is what the first `roar_mm_malloc` gave.
unfoldable pub new : (room : Option Meta) → ℕ → Option (List ℕ) → Status × Option Buffer
unfolding new_no_ma set_flag
new room len block = elim (new_no_ma room len block).0 [
  | failed ↦ (failed, none)
  | ok ↦ set_flag (new_no_ma room len block).1 flag_nofree true
]

-- `roar_buffer_set_offset`: both members are `size_t` or a pointer, and wrap.
unfoldable pub set_offset : Option Buffer → ℕ → Status × Option Buffer
set_offset none off = (failed, none)
set_offset (some b) off =
    (ok, some (record b { user_len = sub_size b.user_len off; user_off = add_size b.user_off off }))

-- `roar_buffer_get_len`
unfoldable pub get_len : Option Buffer → Option ℕ
get_len none = none
get_len (some b) = some b.user_len

-- `roar_buffer_set_len`. `grown` is what `roar_mm_realloc` gives for the size it is asked: `none` for
-- a failure. `user_data` keeps its distance from `data` only if the block is not moved.
unfoldable pub set_len : (grown : ℕ → Option (List ℕ)) → Option Buffer → ℕ → Status × Option Buffer
set_len grown none len = (failed, none)
set_len grown (some old) len =
    let b : Buffer =
      if not (len == 0) && old.user_len == 0
      then record old { user_off = 0; user_len = old.len }
      else old in
    if ltb b.user_len len
    then (if not (bit_and b.flags flag_nofree == 0)
        then (failed, some b)
        else elim (grown (add_size (sub_size b.len b.user_len) len)) [
          | none ↦ (failed, some b)
          | some block ↦ (ok, some (record b { block = block; user_len = len }))
        ])
    else (ok, some (record b { user_len = len }))
