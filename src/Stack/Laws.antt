-- ===== src/Stack/Laws.antt =====
-- roar_stack_push, roar_stack_pop and roar_stack_get_cur of libroar/stack.c against a bounded list.
use roaraudio.Prelude.{
  ℕ, zero, suc, ◌+◌, ◌-◌, ◌≤◌, ◌<◌, ◌≡◌, refl, ap, true, Option, none, some, List, [], ◌∷◌, ◌≢◌,
  arith, get_elem?, set, length, length-set, get_elem?-set_self, get_elem?-set_ne, ltb,
  if◌then◌else◌,
}
use native.Mathlib.Numerals.{towards_suc}
use native.Mathlib.Decide.{dec_lt, ℕ_discrete}
use roaraudio.Status.{Status, ok, failed}
use roaraudio.Stack.{Stack, Ptr, stack_size, slot_at, push, pop, get_cur}

-- `next` lies within the array, whose length is fixed.
pub record IsValid (s : Stack) : Type 0 where
  pub slots : length s.slot ≡ stack_size
  pub within : s.next ≤ stack_size

-- the first `n` slots, the last of them first
abbrev pub above : List Ptr → ℕ → List Ptr
above slots zero = []
above slots (suc n) = (elim (get_elem? slots n) [ none ↦ none | some p ↦ p ]) ∷ above slots n

-- the pointers on the stack, top first
abbrev pub contents : Stack → List Ptr
contents s = above s.slot s.next

above-set : (slots : List Ptr) (n i : ℕ) (p : Ptr) → n ≤ i → above (set slots i p) n ≡ above slots n
above-set slots zero i p h = refl
above-set slots (suc n) i p h =
    rw (get_elem?-set_ne slots {i = i} {j = n} p (omega arith), above-set slots n i p (omega arith))

length-above : (slots : List Ptr) (n : ℕ) → length (above slots n) ≡ n
length-above slots zero = refl
length-above slots (suc n) = ap suc (length-above slots n)

-- A push writes just past the pointers that it keeps.
above-push :
    (slots : List Ptr) (n : ℕ) (p : Ptr)
    → n < length slots
    → above (set slots n p) (n + 1) ≡ p ∷ above slots n
above-push slots n p h =
    simp towards_suc (rw (get_elem?-set_self slots n p h, above-set slots n n p (omega arith)))

-- `above` matches on `suc`, the code tests `next == 0`.
above-pos :
    (s : Stack) → s.next ≢ 0 → contents s ≡ slot_at s (s.next - 1) ∷ above s.slot (s.next - 1)
above-pos s h = let e : s.next ≡ suc (s.next - 1) = omega arith in ap (above s.slot) e

-- A call on a stack that exists, and what the caller sees of it.
pub data Op : Type 0 where
  put : Ptr → Op
  take : Op
  peek : Op

abbrev pub Reply : Type 0
Reply = Status × Option Ptr

pub record Outcome : Type 0 where
  pub reply : Reply
  pub rest : Option Stack

unfoldable pub call : Op → Option Stack → Outcome
unfolding push pop get_cur
call (put p) s = record { reply = ((push s p).0, none); rest = (push s p).1 }
call take s = record { reply = ((pop s true).0, (pop s true).1); rest = (pop s true).2 }
call peek s = record { reply = get_cur s true; rest = s }

unfoldable pub run : List Op → Option Stack → List Reply
unfolding call
run [] s = []
run (o ∷ ops) s = (call o s).reply ∷ run ops (call o s).rest

-- The abstract stack: a list of at most `stack_size` pointers, top first.
unfoldable pub spec_rest : Op → List Ptr → List Ptr
spec_rest (put p) l = if ltb (length l) stack_size then p ∷ l else l
spec_rest take [] = []
spec_rest take (p ∷ l) = l
spec_rest peek l = l

unfoldable pub spec_reply : Op → List Ptr → Reply
spec_reply (put p) l = if ltb (length l) stack_size then (ok, none) else (failed, none)
spec_reply take [] = (failed, some none)
spec_reply take (p ∷ l) = (ok, some p)
spec_reply peek [] = (failed, some none)
spec_reply peek (p ∷ l) = (ok, some p)

unfoldable pub spec_run : List Op → List Ptr → List Reply
unfolding spec_rest spec_reply
spec_run [] l = []
spec_run (o ∷ ops) l = spec_reply o l ∷ spec_run ops (spec_rest o l)

-- What one call does to a valid stack.
record Refines (o : Op) (s : Stack) : Type 0 where
  after : Stack
  rest : (call o (some s)).rest ≡ some after
  valid : IsValid after
  view : contents after ≡ spec_rest o (contents s)
  reply : (call o (some s)).reply ≡ spec_reply o (contents s)

put-Refines : (p : Ptr) (s : Stack) → IsValid s → Refines (put p) s
unfolding call spec_rest spec_reply
put-Refines p s v = elim (dec_lt s.next stack_size) [
  | yes h ↦ record {
    after = record s { slot = set s.slot s.next p; next = s.next + 1 };
    rest = ground arith;
    valid = ground (arith, length-set s.slot s.next p);
    view = ground (arith, above-push s.slot s.next p, length-above s.slot s.next);
    reply = ground (arith, length-above s.slot s.next);
  }
  | no h ↦ record {
    after = s;
    rest = ground arith;
    valid = v;
    view = ground (arith, length-above s.slot s.next);
    reply = ground (arith, length-above s.slot s.next);
  }
]

take-Refines : (s : Stack) → IsValid s → Refines take s
unfolding call spec_rest spec_reply
take-Refines s v = elim (ℕ_discrete s.next 0) [
  | yes h ↦ record {
    after = s;
    rest = ground arith;
    valid = v;
    view = ground arith;
    reply = ground arith;
  }
  | no h ↦ record {
    after = record s { next = s.next - 1 };
    rest = ground arith;
    valid = ground arith;
    view = ground (arith, above-pos s h);
    reply = ground (arith, above-pos s h);
  }
]

peek-Refines : (s : Stack) → IsValid s → Refines peek s
unfolding call spec_rest spec_reply
peek-Refines s v = record {
  after = s;
  rest = refl;
  valid = v;
  view = refl;
  reply = elim (ℕ_discrete s.next 0) [
    | yes h ↦ ground arith
    | no h ↦ ground (arith, above-pos s h)
  ];
}

op-Refines : (o : Op) (s : Stack) → IsValid s → Refines o s
op-Refines (put p) s v = put-Refines p s v
op-Refines take s v = take-Refines s v
op-Refines peek s v = peek-Refines s v

-- No sequence of `roar_stack_push`, `roar_stack_pop` and `roar_stack_get_cur`, each with a place for
-- the result, tells a valid stack from the list of at most `stack_size` pointers that it holds.
pub run_refines :
    (ops : List Op) (s : Stack) → IsValid s → run ops (some s) ≡ spec_run ops (contents s)
unfolding run spec_run
run_refines [] s v = refl
run_refines (o ∷ ops) s v =
    let r = op-Refines o s v in rw (r.rest, r.reply, run_refines ops r.after r.valid, r.view)
