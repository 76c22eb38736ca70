-- ===== src/Notify/Unsubscribe.antt =====
-- roar_notify_core_subscribe and then roar_notify_core_unsubscribe (libroar/notify.c).
use roaraudio.Prelude.{
  ℕ, zero, suc, ◌<◌, ◌≡◌, ◌≢◌, refl, ap, ◌∙◌, inl, inr, Bool, true, false, some, List, [], ◌∷◌,
  ◌++◌, ◌==◌, if◌then◌else◌, length, set, get_or, arith, ==-self, ==-ne,
}
use roaraudio.Status.{ok}
use roaraudio.Notify.{
  Event, Subscriber, Core, hash_event, list_at, subscriber, subscribe, unlink, is_first,
  unsubscribe,
}
use roaraudio.Notify.Emit.{get_or-set, hash_event_bound}
use roaraudio.Notify.Reach.{Has}
use roaraudio.Notify.Subscribe.{unsubscribe-some}

-- No subscriber of the list stands at `addr`.
abbrev pub Lacks : ℕ → List Subscriber → Type 0
Lacks addr ss = (s : Subscriber) → Has ss s → s.addr ≢ addr

unlink-append :
    (addr : ℕ) (ss : List Subscriber) (s : Subscriber)
    → s.addr ≡ addr
    → Lacks addr ss
    → unlink addr (ss ++ (s ∷ [])) ≡ some ss
unlink-append addr [] s e l = ground arith
unlink-append addr (t ∷ ss) s e l =
    let other : (t.addr == addr) ≡ false = ==-ne t.addr addr (l t (inl refl)) in
    rw other (rw (unlink-append addr ss s e (λ u m. l u (inr m))) refl)

set-set {ℓ} : {A : Type ℓ} (xs : List A) (i : ℕ) (v d : A) → set (set xs i v) i (get_or xs i d) ≡ xs
set-set [] i v d = refl
set-set (x ∷ xs) zero v d = refl
set-set (x ∷ xs) (suc i) v d = ap (λ l. x ∷ l) (set-set xs i v d)

abbrev pub is_empty : List Subscriber → Bool
is_empty [] = true
is_empty (s ∷ ss) = false

is_first-append :
    (addr : ℕ) (ss : List Subscriber) (s : Subscriber)
    → s.addr ≡ addr
    → Lacks addr ss
    → is_first addr (ss ++ (s ∷ [])) ≡ is_empty ss
is_first-append addr [] s e l = ground arith
is_first-append addr (t ∷ ss) s e l = ==-ne t.addr addr (l t (inl refl))

-- `roar_notify_core_unsubscribe` of the subscriber that `roar_notify_core_subscribe` has just put
-- into a core with a list or more, at an address that its list does not have, succeeds and
-- restores every list of the table; it frees the subscriber if others stood in its list, and does
-- not free it if it is the only one.
pub unsubscribe-subscribe :
    (core : Core) (addr cb userdata : ℕ) (e : Event)
    → 0 < length core.lists
    → Lacks addr (list_at core (hash_event (length core.lists) e.event))
    → (core' : Core) × (unsubscribe addr
          (hash_event (length core.lists) e.event)
          (subscribe addr e cb userdata core)
        ≡ (ok, core'))
      × (core'.lists ≡ core.lists)
      × (core'.released ≡ (
          if is_empty (list_at core (hash_event (length core.lists) e.event))
          then core.released
          else core.released ++ (addr ∷ [])))
unfolding subscribe
unsubscribe-subscribe core addr cb userdata e room lacks =
    let h = hash_event (length core.lists) e.event in
    let new = subscriber addr (length core.lists) e cb userdata in
    let old = list_at core h in
    let read : list_at (subscribe addr e cb userdata core) h ≡ old ++ (new ∷ []) =
      get_or-set core.lists h h (old ++ (new ∷ [])) []
        (hash_event_bound (length core.lists) e.event room)
      ∙ rw (==-self h) refl in
    let p = ap (unlink addr) read ∙ unlink-append addr old new refl lacks in
    let run = unsubscribe-some (subscribe addr e cb userdata core) addr h old p in
    let first = ap (is_first addr) read ∙ is_first-append addr old new refl lacks in
    (
      _,
      run,
      set-set core.lists h (old ++ (new ∷ [])) [],
      ap (λ b. if b then core.released else core.released ++ (addr ∷ [])) first,
    )
