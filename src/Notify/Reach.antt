-- ===== src/Notify/Reach.antt =====
-- Whom an event reaches (libroar/notify.c).
use roaraudio.Prelude.{
  ℕ, ◌≡◌, ◌⊎◌, ap, ◌∙◌, inl, inr, true, List, [], ◌∷◌, ◌++◌, length, Bool-cases,
}
use mathlib.Core.Path.{subst}
use roaraudio.Notify.{
  Event, Subscriber, Core, hash_event, list_at, wants, emit_loop, proxy_calls, emit,
}

-- A member of a list.
abbrev pub Has : {A : Type 0} → List A → A → Type 0
Has [] a = ⊥
Has (x ∷ xs) a = (x ≡ a) ⊎ Has xs a

pub Has-append : {A : Type 0} (xs ys : List A) (a : A) → Has ys a → Has (xs ++ ys) a
Has-append [] ys a h = h
Has-append (x ∷ xs) ys a h = inr (Has-append xs ys a h)

pub Has-cases : {A : Type 0} (xs ys : List A) (a : A) → Has (xs ++ ys) a → Has xs a ⊎ Has ys a
Has-cases [] ys a h = inr h
Has-cases (x ∷ xs) ys a (inl e) = inl (inl e)
Has-cases (x ∷ xs) ys a (inr h) = elim (Has-cases xs ys a h) [ inl l ↦ inl (inr l) | inr r ↦ inr r ]

-- Every subscriber stands in the list of its event.
abbrev pub IsCore : Core → Type 0
IsCore core =
    (h : ℕ) (s : Subscriber)
    → Has (list_at core h) s
    → (s.hash ≡ h) × (h ≡ hash_event (length core.lists) s.event)

emit_loop-Has :
    (ss : List Subscriber) (s : Subscriber) (e : Event)
    → Has ss s
    → wants s e ≡ true
    → Has (emit_loop e ss) (s.cb, s.userdata, e)
unfolding emit_loop
emit_loop-Has [] s e h w = absurd h
emit_loop-Has (t ∷ ss) s e h w = elim (Bool-cases (wants t e)) [
  | inl called ↦ rw called (elim h [
    | inl same ↦ inl (ap (λ (x : Subscriber). (x.cb, x.userdata, e)) same)
    | inr later ↦ inr (emit_loop-Has ss s e later w)
  ])
  | inr skipped ↦ rw skipped (elim h [
    | inl same ↦ absurd (cc (ap (λ (x : Subscriber). wants x e) same))
    | inr later ↦ emit_loop-Has ss s e later w
  ])
]

-- In a core with every subscriber in the list of its event, an event reaches every subscriber that
-- names it and wants it: a call with the subscriber's data is among those that
-- `roar_notify_core_emit` makes.
pub emit-Has :
    (core : Core) (h : ℕ) (s : Subscriber) (e : Event)
    → IsCore core
    → Has (list_at core h) s
    → s.event ≡ e.event
    → wants s e ≡ true
    → Has (emit e core) (s.cb, s.userdata, e)
unfolding emit
emit-Has core h s e v member same w =
    let n = length core.lists in
    let place : h ≡ hash_event n e.event = (v h s member).1 ∙ ap (hash_event n) same in
    Has-append (proxy_calls core e) (emit_loop e (list_at core (hash_event n e.event)))
      (s.cb, s.userdata, e)
      (emit_loop-Has (list_at core (hash_event n e.event)) s e
        (subst (λ k. Has (list_at core k) s) place member) w)
