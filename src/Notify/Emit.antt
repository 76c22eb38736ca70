-- ===== src/Notify/Emit.antt =====
-- Who is called by roar_notify_core_emit (libroar/notify.c).
use roaraudio.Prelude.{
  ℕ, zero, suc, ◌+◌, ◌-◌, ◌/◌, ◌^◌, ◌≤◌, ◌<◌, ◌≡◌, ◌≢◌, refl, sym, ap, ◌∙◌, inl, inr, true, List,
  [], ◌∷◌, ◌++◌, ◌==◌, if◌then◌else◌, length, set, length-set, get_or, arith, Bool-cases, ==-self,
  ==-ne,
}
use Prim.Native.Nat.{bit_and, bit_xor}
use roaraudio.Prelude.Bits.{bit_and_halves}
use mathlib.Core.List.{append_assoc, append-nil}
use roaraudio.Notify.{
  Event, Subscriber, Core, Call, special, minus_one, hash_event, list_at, subscriber, subscribe,
  wants, emit_loop, proxy_calls, emit,
}

pub emit_loop-append :
    (e : Event) (ss ts : List Subscriber)
    → emit_loop e (ss ++ ts) ≡ emit_loop e ss ++ emit_loop e ts
unfolding emit_loop
emit_loop-append e [] ts = refl
emit_loop-append e (s ∷ ss) ts = elim (Bool-cases (wants s e)) [
  | inl yes_please ↦ rw yes_please (ap (λ l. (s.cb, s.userdata, e) ∷ l) (emit_loop-append e ss ts))
  | inr no_thanks ↦ rw no_thanks (emit_loop-append e ss ts)
]

pub get_or-set {ℓ} :
    {A : Type ℓ} (xs : List A) (i j : ℕ) (v d : A)
    → i < length xs
    → get_or (set xs i v) j d ≡ (if i == j then v else get_or xs j d)
get_or-set [] i j v d h = absurd (omega arith)
get_or-set (x ∷ xs) zero zero v d h = refl
get_or-set (x ∷ xs) zero (suc j) v d h = ground arith
get_or-set (x ∷ xs) (suc i) zero v d h = ground arith
get_or-set (x ∷ xs) (suc i) (suc j) v d h =
    let ih = get_or-set xs i j v d (omega arith) in ground (arith, ih)

-- the call that a subscriber gets of an event, if it wants it and stands in the event's list
abbrev pub reached : (listc : ℕ) → Subscriber → Event → List Call
reached listc s e =
    if s.hash == hash_event listc e.event
    then (if wants s e then (s.cb, s.userdata, e) ∷ [] else [])
    else []

-- A list of the table after a subscriber was put behind the list at `h`.
longer :
    (lists : List (List Subscriber)) (s : Subscriber) (h k : ℕ) (e : Event)
    → h < length lists
    → emit_loop e (get_or (set lists h (get_or lists h [] ++ (s ∷ []))) k [])
      ≡ emit_loop e (get_or lists k [])
        ++ (if h == k then (if wants s e then (s.cb, s.userdata, e) ∷ [] else []) else [])
unfolding emit_loop
longer lists s h k e inside =
    let read = get_or-set lists h k (get_or lists h [] ++ (s ∷ [])) [] inside in
    elim (Bool-cases (h == k)) [
      | inl same ↦
          let here : h ≡ k = ground arith in
          rw (same, here)
            (ap (emit_loop e) {y = get_or lists k [] ++ (s ∷ [])} (
                get_or-set lists k k (get_or lists k [] ++ (s ∷ [])) []
                  (omega (arith, inside, here))
                ∙ rw (==-self k) refl)
              ∙ emit_loop-append e (get_or lists k []) (s ∷ []))
      | inr other ↦ rw other (
          ap (emit_loop e) {y = get_or lists k []} (read ∙ rw other refl)
          ∙ sym (append-nil (emit_loop e (get_or lists k []))))
    ]

-- `_hash_event` stays within the table.
bit_and_bound : (n a b : ℕ) → a + b ≤ n → bit_and a b ≤ b
bit_and_bound zero zero zero h = omega arith
bit_and_bound zero zero (suc b) h = absurd (omega arith)
bit_and_bound zero (suc a) b h = absurd (omega arith)
bit_and_bound (suc n) zero zero h = omega arith
bit_and_bound (suc n) zero (suc b) h =
    omega (arith, bit_and_halves 0 (suc b), bit_and_bound n (0 / 2) (suc b / 2) (omega arith))
bit_and_bound (suc n) (suc a) b h =
    omega (arith, bit_and_halves (suc a) b, bit_and_bound n (suc a / 2) (b / 2) (omega arith))

pub hash_event_bound : (listc event : ℕ) → 0 < listc → hash_event listc event < listc
unfolding hash_event
hash_event_bound listc event h =
    let mixed =
      bit_xor (bit_xor (bit_xor (bit_xor 0 event) (event / 2 ^ 8)) (event / 2 ^ 16))
        (event / 2 ^ 24) in
    omega (arith, bit_and_bound (mixed + (listc - 1)) mixed (listc - 1) (omega arith))

-- After `roar_notify_core_subscribe` in a core with a list or more an event makes the calls that
-- it made before and then, if it has the subscriber's hash and the subscriber wants it, one more,
-- that of the new subscriber.
emit-subscribe :
    (core : Core) (addr cb userdata : ℕ) (pattern e : Event)
    → 0 < length core.lists
    → emit e (subscribe addr pattern cb userdata core)
      ≡ emit e core
        ++ reached (length core.lists) (subscriber addr (length core.lists) pattern cb userdata) e
unfolding emit subscribe
emit-subscribe core addr cb userdata pattern e inside =
    let n = length core.lists in
    let s = subscriber addr n pattern cb userdata in
    let size = length-set core.lists s.hash (list_at core s.hash ++ (s ∷ [])) in
    rw size (
      ap (λ l. proxy_calls core e ++ l)
        (longer core.lists s s.hash (hash_event n e.event) e
          (hash_event_bound n pattern.event inside))
      ∙ sym (
          append_assoc (proxy_calls core e) (emit_loop e (list_at core (hash_event n e.event)))
            (reached n s e)))

-- A subscriber for all events, whoever sends them, is missed by every event that has another hash
-- than ROAR_NOTIFY_SPECIAL, though the test of `roar_notify_core_emit` would let it be called: the
-- event makes the same calls as without it.
pub emit-subscribe-special :
    (core : Core) (addr cb userdata : ℕ) (pattern e : Event)
    → 0 < length core.lists
    → pattern.event ≡ special
    → pattern.emitter ≡ minus_one
    → pattern.target ≡ minus_one
    → pattern.target_type ≡ minus_one
    → hash_event (length core.lists) special ≢ hash_event (length core.lists) e.event
    → (wants (subscriber addr (length core.lists) pattern cb userdata) e ≡ true)
      × (emit e (subscribe addr pattern cb userdata core) ≡ emit e core)
emit-subscribe-special core addr cb userdata pattern e inside all a b c apart = (
  rw (all, a, b, c) refl,
  emit-subscribe core addr cb userdata pattern e inside
      ∙ ap (λ l. emit e core ++ l) {y = []}
          (rw all (
            rw
              (==-ne (hash_event (length core.lists) special)
                (hash_event (length core.lists) e.event) apart)
              refl))
      ∙ append-nil (emit e core),
)
