-- ===== src/Stack.antt =====
-- libroar/stack.c: the fixed stack of pointers, `struct roar_stack`. A pointer is a number, NULL is
-- `none`. A function that updates `*stack` returns the new value beside its `int`, which is `ok`
-- for 0 and `failed` for -1.
pub mod Laws
pub mod Release
mod Tests
use Prim.Native.Nat.{bit_and, bit_or}
use roaraudio.Prelude.{
  ℕ, zero, suc, ◌+◌, ◌-◌, ◌≡◌, Bool, true, false, Option, none, some, List, [], ◌∷◌, ◌==◌,
  if◌then◌else◌, get_elem?, set, replicate, ltb, not, ◌&&◌,
}
use roaraudio.Status.{Status, ok, failed}

-- `ROAR_STACK_SIZE` and the two flags
abbrev pub stack_size : ℕ
stack_size = 32

abbrev pub flag_free_self : ℕ
flag_free_self = 1

abbrev pub flag_free_data : ℕ
flag_free_data = 2

abbrev pub Ptr : Type 0
Ptr = Option ℕ

-- The function pointer `stack->free`: NULL, the C library's `free`, or one that the caller set.
pub data FreeFunc : Type 0 where
  unset libc_free : FreeFunc
  custom : ℕ → FreeFunc

pub record Stack : Type 0 where
  pub next : ℕ
  pub flags : ℕ
  pub free : FreeFunc
  pub slot : List Ptr

-- what `memset(stack, 0, sizeof(struct roar_stack))` leaves
abbrev pub zeroed : Stack
zeroed = record { next = 0; flags = 0; free = unset; slot = replicate stack_size none }

-- A call of the function in `stack->free`.
pub record FreeCall : Type 0 where
  pub func : FreeFunc
  pub arg : Ptr

-- `roar_stack_new`
unfoldable pub new : Option Stack → Status × Option Stack
new none = (failed, none)
new (some s) = (ok, some (record zeroed { flags = flag_free_data; free = libc_free }))

-- `roar_stack_set_free`
unfoldable pub set_free : Option Stack → FreeFunc → Status × Option Stack
set_free none func = (failed, none)
set_free (some s) func = (ok, some (record s { free = func }))

-- `roar_stack_set_flag`
unfoldable pub set_flag : Option Stack → ℕ → Bool → Status × Option Stack
set_flag none flag reset = (failed, none)
set_flag (some s) flag reset =
    let raised = bit_or s.flags flag in
    (ok, some (record s { flags = if reset then raised - flag else raised }))

-- `roar_stack_newalloc`. `memory` is what `roar_mm_malloc` returned: the struct, in any state.
unfoldable pub newalloc : Option Stack → Option Stack
unfolding new set_flag
newalloc none = none
newalloc (some memory) = elim (new (some memory)).0 [
  | ok ↦ elim (set_flag (new (some memory)).1 flag_free_self false).0 [
    | ok ↦ (set_flag (new (some memory)).1 flag_free_self false).1
    | failed ↦ none
  ]
  | failed ↦ none
]

-- `roar_stack_push`
unfoldable pub push : Option Stack → Ptr → Status × Option Stack
push none ptr = (failed, none)
push (some s) ptr =
    if s.next == stack_size
    then (failed, some s)
    else (ok, some (record s { slot = set s.slot s.next ptr; next = s.next + 1 }))

-- What a read of `slot[i]` gives; a read past the array is not reached (`Laws`).
abbrev pub slot_at : Stack → ℕ → Ptr
slot_at s i = elim (get_elem? s.slot i) [ none ↦ none | some p ↦ p ]

-- `roar_stack_pop`. The middle part is what stands in `*ptr` after the call, where `wanted` says
-- that `ptr` is not NULL; `none` there means that nothing was written.
unfoldable pub pop : Option Stack → (wanted : Bool) → Status × Option Ptr × Option Stack
pop none wanted = (failed, none, none)
pop (some s) wanted =
    if s.next == 0 then (failed, (if wanted then some none else none), some s) else (
      ok,
      (if wanted then some (slot_at s (s.next - 1)) else none),
      some (record s { next = s.next - 1 }),
    )

-- `roar_stack_get_cur`
unfoldable pub get_cur : Option Stack → (wanted : Bool) → Status × Option Ptr
get_cur none wanted = (failed, none)
get_cur (some s) wanted =
    if not wanted
    then (failed, none)
    else if s.next == 0
    then (failed, some none)
    else (ok, some (slot_at s (s.next - 1)))

-- The loop of `roar_stack_free`, `n` rounds from `i` on.
pub free_slots : Stack → (i n : ℕ) → List FreeCall
free_slots s i zero = []
free_slots s i (suc n) = record { func = s.free; arg = slot_at s i } ∷ free_slots s (i + 1) n

abbrev pub is_set : FreeFunc → Bool
is_set unset = false
is_set libc_free = true
is_set (custom f) = true

-- `roar_stack_free`: the calls of `stack->free`, whether the struct itself is given back, and what
-- is left in it otherwise.
pub record Freed : Type 0 where
  pub calls : List FreeCall
  pub left : Option Stack

unfoldable pub free : Option Stack → Status × Freed
unfolding free_slots
free none = (failed, record { calls = []; left = none })
free (some s) = (
  ok,
  record {
    calls =
        if ltb 0 (bit_and s.flags flag_free_data) && is_set s.free
        then free_slots s 0 s.next
        else [];
    left = if ltb 0 (bit_and s.flags flag_free_self) then none else some zeroed;
  },
)
