-- ===== src/Stack/Release.antt =====
-- roar_stack_new, roar_stack_newalloc, roar_stack_set_flag and roar_stack_free of libroar/stack.c:
-- the flags, and which pointers a release hands to `stack->free`.
use Prim.Native.Nat.{bit_and}
use mathlib.Core.List.{reverse, reverse-append}
use roaraudio.Prelude.{
  ℕ, zero, suc, ◌+◌, ◌≡◌, refl, ap, ◌∙◌, Bool, true, false, ◌&&◌, none, some, List, [], ◌∷◌, ◌++◌,
  map, arith, ltb, if◌then◌else◌, Bool-cases, inl, inr,
}
use roaraudio.Prelude.Bits.{flag_laws}
use native.Mathlib.Nat.{add-zero, zero-add}
use roaraudio.Stack.{
  Stack, Ptr, FreeFunc, libc_free, FreeCall, zeroed, slot_at, flag_free_data, newalloc, set_flag,
  free_slots, free, is_set,
}
use roaraudio.Stack.Laws.{IsValid, above, contents}

-- The calls, first slot first.
call_at : Stack → ℕ → FreeCall
call_at s i = record { func = s.free; arg = slot_at s i }

free_slots-append :
    (s : Stack) (i n : ℕ) → free_slots s i (suc n) ≡ free_slots s i n ++ call_at s (i + n) ∷ []
unfolding free_slots call_at
free_slots-append s i zero = rw (add-zero i)
free_slots-append s i (suc n) =
    let same : i + 1 + n ≡ i + suc n = omega arith in
    ap (λ l. call_at s i ∷ l) (free_slots-append s (i + 1) n ∙ rw same)

-- a call of `func` for each pointer
abbrev pub calls_of : FreeFunc → List Ptr → List FreeCall
calls_of func = map (λ p. record { func = func; arg = p })

free_slots-above :
    (s : Stack) (n : ℕ) → reverse (free_slots s 0 n) ≡ calls_of s.free (above s.slot n)
unfolding call_at
free_slots-above s zero = unfold free_slots in refl
free_slots-above s (suc n) =
    rw (free_slots-append s 0 n, reverse-append, free_slots-above s n, zero-add)

-- `roar_stack_free` of a stack whose data it owns calls `stack->free` once for each pointer that
-- the stack holds, from the bottom up, and for nothing else; without ROAR_STACK_FLAG_FREE_DATA, or
-- with no function set, it calls nothing.
pub free_lem :
    (s : Stack)
    → reverse (free (some s)).1.calls ≡ (
        if ltb 0 (bit_and s.flags flag_free_data) && is_set s.free
        then calls_of s.free (contents s)
        else [])
unfolding free
free_lem s = elim (Bool-cases (ltb 0 (bit_and s.flags flag_free_data) && is_set s.free)) [
  | inl h ↦ rw h (free_slots-above s s.next)
  | inr h ↦ rw h
]

-- `roar_stack_newalloc` gives an empty stack that owns its data and itself: a release leaves no
-- struct behind.
pub newalloc_lem :
    (memory : Stack)
    → (s : Stack) × (newalloc (some memory) ≡ some s)
      × IsValid s
      × (contents s ≡ [])
      × ((free (some s)).1.left ≡ none)
unfolding newalloc free
newalloc_lem memory = (record zeroed { flags = 3; free = libc_free }, refl, omega arith, refl, refl)

-- `roar_stack_set_flag` raises or lowers exactly the bits of `flag`: bits outside it, `g`, stay.
pub set_flag_lem :
    (s t : Stack) (flag g : ℕ) (reset : Bool)
    → (set_flag (some s) flag reset).1 ≡ some t
    → (bit_and t.flags flag ≡ (if reset then 0 else flag))
      × (bit_and flag g ≡ 0 → bit_and t.flags g ≡ bit_and s.flags g)
unfolding set_flag
set_flag_lem s t flag g true e = ground (arith, flag_laws s.flags flag g)
set_flag_lem s t flag g false e = ground (arith, flag_laws s.flags flag g)
