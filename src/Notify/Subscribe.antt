-- ===== src/Notify/Subscribe.antt =====
-- roar_notify_core_new, _subscribe and _unsubscribe keep the table in order (libroar/notify.c).
use roaraudio.Prelude.{
  ℕ, zero, suc, ◌<◌, ◌≡◌, refl, sym, ap, ◌∙◌, inl, inr, none, some, List, [], ◌∷◌, ◌++◌, ◌==◌,
  if◌then◌else◌, length, set, length-set, replicate, get_or, arith, Bool-cases, Option-cases,
}
use mathlib.Core.Path.{subst}
use roaraudio.Status.{ok, failed}
use roaraudio.Notify.{
  core_new, empty_core, sizes, is_size, Event, Subscriber, Core, minus_one, hash_event, list_at,
  subscriber, subscribe, unlink, is_first, unsubscribe,
}
use roaraudio.Notify.Emit.{get_or-set, hash_event_bound}
use roaraudio.Notify.Reach.{Has, Has-cases, IsCore}

get_or-replicate : {A : Type 0} (k i : ℕ) (a : A) → get_or (replicate k a) i a ≡ a
get_or-replicate zero i a = refl
get_or-replicate (suc k) zero a = refl
get_or-replicate (suc k) (suc i) a = get_or-replicate k i a

module _ (core : Core) (v : IsCore core) where
  -- A list that is put at `h`, with members of that place alone.
  put_list :
      (h : ℕ) (l : List Subscriber)
      → h < length core.lists
      → ((s : Subscriber) → Has l s → (s.hash ≡ h) × (h ≡ hash_event (length core.lists) s.event))
      → (j : ℕ) (s : Subscriber) → Has (get_or (set core.lists h l) j []) s
      → (s.hash ≡ j) × (j ≡ hash_event (length core.lists) s.event)
  put_list h l inside fits j s member =
      let read = get_or-set core.lists h j l [] inside in
      elim (Bool-cases (h == j)) [
        | inl same ↦
            let here : h ≡ j = ground arith in
            let m : Has l s = subst (λ k. Has k s) (read ∙ rw same refl) member in
            ((fits s m).0 ∙ here, sym here ∙ (fits s m).1)
        | inr other ↦ v j s (subst (λ k. Has k s) (read ∙ rw other refl) member)
      ]

unlink-Has :
    (addr : ℕ) (ss ts : List Subscriber) (s : Subscriber)
    → unlink addr ss ≡ some ts
    → Has ts s
    → Has ss s
unlink-Has addr [] ts s e h = absurd (cc e)
unlink-Has addr (t ∷ ss) ts s e h = elim (Bool-cases (t.addr == addr)) [
  | inl gone ↦ let rest : ss ≡ ts = ground (arith, gone) in inr (subst (λ l. Has l s) (sym rest) h)
  | inr stays ↦ elim (Option-cases (unlink addr ss)) [
    | inl nothing ↦ absurd (ground (arith, stays))
    | inr (us, p) ↦
        let rest : ts ≡ t ∷ us = ground (arith, stays) in
        elim (subst (λ l. Has l s) rest h) [
          | inl same ↦ inl same
          | inr later ↦ inr (unlink-Has addr ss us s p later)
        ]
  ]
]

pub empty_core-IsCore : (n : ℕ) → IsCore (empty_core n)
empty_core-IsCore n h s member = absurd (subst (λ l. Has l s) (get_or-replicate n h []) member)

core_new-IsCore : (lists : ℕ) (core : Core) → core_new lists ≡ some core → IsCore core
unfolding core_new
core_new-IsCore lists core e = elim (Bool-cases (is_size lists sizes)) [
  | inl good ↦
      let same : empty_core lists ≡ core = ground (arith, good) in
      subst IsCore (same) (empty_core-IsCore lists)
  | inr bad ↦ elim (Bool-cases (lists == minus_one)) [
    | inl standard ↦
        let same : empty_core 16 ≡ core = ground (arith, bad, standard) in
        subst IsCore (same) (empty_core-IsCore 16)
    | inr worse ↦ absurd (ground (arith, bad, worse))
  ]
]

unsubscribe-none :
    (core : Core) (addr h : ℕ)
    → unlink addr (list_at core h) ≡ none
    → unsubscribe addr h core ≡ (failed, core)
unfolding unsubscribe
unsubscribe-none core addr h p = rw (p, unsubscribe) refl

pub unsubscribe-some :
    (core : Core) (addr h : ℕ) (ts : List Subscriber)
    → unlink addr (list_at core h) ≡ some ts
    → unsubscribe addr h core ≡ (
      ok,
      record core {
        lists = set core.lists h ts;
        released =
            if is_first addr (list_at core h) then core.released else core.released ++ (addr ∷ []);
      },
    )
unfolding unsubscribe
unsubscribe-some core addr h ts p = rw (p, unsubscribe) refl

module _ (core : Core) (v : IsCore core) (room : 0 < length core.lists) where
  subscribe-IsCore : (addr cb userdata : ℕ) (e : Event) → IsCore (subscribe addr e cb userdata core)
  unfolding subscribe
  subscribe-IsCore addr cb userdata e j s member =
      let n = length core.lists in
      let new = subscriber addr n e cb userdata in
      let old = list_at core new.hash in
      let fits : (t : Subscriber)
          → Has (old ++ (new ∷ [])) t
          → (t.hash ≡ new.hash) × (new.hash ≡ hash_event n t.event) =
        λ t m. elim (Has-cases old (new ∷ []) t m) [
          | inl before ↦ v new.hash t before
          | inr last ↦ elim last [
            | inl same ↦ (
              ap (λ (x : Subscriber). x.hash) (sym same),
              ap (λ (x : Subscriber). hash_event n x.event) same,
            )
            | inr nothing ↦ absurd nothing
          ]
        ] in
      let r =
        put_list core v new.hash (old ++ (new ∷ [])) (hash_event_bound n e.event room) fits j s
          member in
      (
        r.0,
        r.1
            ∙ ap (λ k. hash_event k s.event)
                (sym (length-set core.lists new.hash (old ++ (new ∷ [])))),
      )

  unsubscribe-IsCore : (addr h : ℕ) → h < length core.lists → IsCore (unsubscribe addr h core).1
  unsubscribe-IsCore addr h inside = elim (Option-cases (unlink addr (list_at core h))) [
    | inl nothing ↦ subst (λ r. IsCore r.1) (sym (unsubscribe-none core addr h nothing)) v
    | inr (ts, p) ↦
        subst (λ r. IsCore r.1) (sym (unsubscribe-some core addr h ts p))
          (λ j s member.
            let r =
              put_list core v h ts inside (λ t m. v h t (unlink-Has addr (list_at core h) ts t p m))
                j s member in
            (r.0, r.1 ∙ ap (λ k. hash_event k s.event) (sym (length-set core.lists h ts))))
  ]

-- A core from `roar_notify_core_new` has every subscriber in the list of its event, and
-- `roar_notify_core_subscribe` and `roar_notify_core_unsubscribe`, the latter of a subscriber
-- whose hash lies in the table, whether it is there or not, keep this of any core with a list or
-- more.
pub kept-IsCore :
    (lists : ℕ) (fresh core : Core) (addr cb userdata h : ℕ) (e : Event)
    → core_new lists ≡ some fresh
    → IsCore core
    → 0 < length core.lists
    → h < length core.lists
    → IsCore fresh × IsCore (subscribe addr e cb userdata core) × IsCore (unsubscribe addr h core).1
kept-IsCore lists fresh core addr cb userdata h e new v room inside = (
  core_new-IsCore lists fresh new,
  subscribe-IsCore core v room addr cb userdata e,
  unsubscribe-IsCore core v room addr h inside,
)
