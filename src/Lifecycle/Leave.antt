-- ===== src/Lifecycle/Leave.antt =====
-- What the client of a stream that ends does: client_stream_delete (roard/clients.c) in
-- streams_delete (roard/streams.c), which may delete the client.
use roaraudio.Prelude.{
  ℕ, zero, suc, ◌≤◌, ◌<◌, ◌≡◌, ◌≢◌, inl, inr, refl, sym, ◌∙◌, ap, true, false, Option, none, some,
  List, [], ◌∷◌, get_elem?, length, arith, Bool-cases, Option-cases, ◌==◌, ltb,
}
use roaraudio.Status.{Status, ok, failed}
use roaraudio.Meta.{exited, Run, done, and_then}
use roaraudio.Client.{
  Client, Server, minus_one, clients_max, put, client_at, replace_first, client_stream_delete,
}
use roaraudio.Client.Move.{client_at_lem}
use roaraudio.Lifecycle.{leave_client}
use roaraudio.Lifecycle.Open.{count_open}
use roaraudio.Lifecycle.Kept.{
  IsSound, IsIdle, Kept, Kept-trans, all-Kept, but-Kept, client-Kept, some_eq,
}
use roaraudio.Lifecycle.Ends.{Ends, ClientEnded, refl-Kept, DeletesClients, get_elem?-there}

replace_first-length :
    (old new : ℕ) (ss ts : List ℕ) → replace_first old new ss ≡ some ts → length ts ≡ length ss
unfolding replace_first
replace_first-length old new [] ts e = absurd (ground arith)
replace_first-length old new (s ∷ ss) ts e = elim (Bool-cases (s == old)) [
  | inl here ↦ ground arith
  | inr later ↦ elim (Option-cases (replace_first old new ss)) [
    | inl gone ↦ absurd (ground arith)
    | inr (us, p) ↦ let ih = replace_first-length old new ss us p in ground arith
  ]
]

-- No slot holds 64.
abbrev AreNumbers : List ℕ → Type 0
AreNumbers ss = (i n : ℕ) → get_elem? ss i ≡ some n → n ≢ 64

put_first : (a : ℕ) (ss : List ℕ) → a ≢ 64 → AreNumbers ss → AreNumbers (a ∷ ss)
put_first a ss h all zero n q = let e : a ≡ n = some_eq q in rw (← e) h
put_first a ss h all (suc i) n q = all i n q

replace_first-numbers :
    (old new : ℕ) (ss ts : List ℕ)
    → new ≢ 64
    → AreNumbers ss
    → replace_first old new ss ≡ some ts
    → AreNumbers ts
unfolding replace_first
replace_first-numbers old new [] ts k all e = absurd (ground arith)
replace_first-numbers old new (s ∷ ss) ts k all e =
    let tail : AreNumbers ss = λ i n q. all (suc i) n q in
    elim (Bool-cases (s == old)) [
      | inl here ↦ let e' : ts ≡ new ∷ ss = ground arith in rw e' (put_first new ss k tail)
      | inr later ↦ elim (Option-cases (replace_first old new ss)) [
        | inl gone ↦ absurd (ground arith)
        | inr (us, p) ↦
            let e' : ts ≡ s ∷ us = ground arith in
            rw e' (put_first s us (all 0 s refl) (replace_first-numbers old new ss us k tail p))
      ]
    ]

pub client_at_above : (g : Server) (c : ℕ) → clients_max < c → client_at g c ≡ done none
unfolding client_at
client_at_above g c h = let above : ltb clients_max c ≡ true = ground arith in rw above refl

module _ (delete : ℕ → Server → Run Server) (id c : ℕ) (g : Server)
    (known : (c == minus_one) ≡ false) where
  leave_after :
      (r : Status × Server)
      → client_stream_delete delete c id g ≡ done r
      → leave_client delete id c g ≡ done (r.1)
  leave_after r e = rw (e, leave_client, known) refl

  leave_no_client : client_at g c ≡ done none → leave_client delete id c g ≡ done g
  unfolding client_stream_delete
  leave_no_client a = leave_after (failed, g) (rw a refl)

  module _ (k : Client) (a : client_at g c ≡ done (some k)) where
    leave_no_slot :
        replace_first id minus_one k.streams ≡ none → leave_client delete id c g ≡ done g
    unfolding client_stream_delete
    leave_no_slot e = leave_after (failed, g) (rw (a, and_then, e) refl)

    module _ (slots : List ℕ) (e : replace_first id minus_one k.streams ≡ some slots) where
      leave_slot :
          (id == k.execed) ≡ false
          → leave_client delete id c g ≡ done (put g c (record k { streams = slots }))
      unfolding client_stream_delete
      leave_slot other =
          leave_after (ok, put g c (record k { streams = slots })) (rw (a, and_then, e, other) refl)

      leave_executed :
          (g' : Server)
          → (id == k.execed) ≡ true
          → delete c (put g c (record k { streams = slots })) ≡ done g'
          → leave_client delete id c g ≡ done g'
      unfolding client_stream_delete
      leave_executed g' same d = leave_after (ok, g') (rw (a, and_then, e, same, d) refl)

      leave_exited :
          (id == k.execed) ≡ true
          → delete c (put g c (record k { streams = slots })) ≡ exited
          → leave_client delete id c g ≡ exited
      unfolding client_stream_delete
      leave_exited same d =
          let x : client_stream_delete delete c id g ≡ exited = rw (a, and_then, e, same, d) refl in
          rw (x, leave_client, known) refl

module _ (m : ℕ) (delete : ℕ → Server → Run Server) (deletes : DeletesClients m delete) (id : ℕ)
    (small : id < 64) (g : Server) (v : IsSound g) (few : count_open g.streams ≤ m) where
  abbrev pub Left : ℕ → Type 0
  Left c = Ends g (leave_client delete id c g) (Kept g)

  slot-Left :
      (c : ℕ) (k : Client) (slots : List ℕ)
      → c < 64
      → (c == minus_one) ≡ false
      → get_elem? g.clients c ≡ some (some k)
      → replace_first id minus_one k.streams ≡ some slots
      → Left c
  slot-Left c k slots inside known there e =
      let own = v.slots c k there in
      let k' : Client = record k { streams = slots } in
      let p : Kept g (put g c k') =
        client-Kept g v c k k' there (replace_first-length id minus_one k.streams slots e ∙ own.0)
          (replace_first-numbers id minus_one k.streams slots (λ q. omega (arith, q)) (own.1) e)
          (λ q. q) in
      let a = client_at_lem g c (some k) inside there in
      elim (Bool-cases (id == k.execed)) [
        | inr other ↦ inr (put g c k', leave_slot delete id c g known k a slots e other, p)
        | inl same ↦ executed p same (
            deletes c (put g c k') p.sound (omega (arith, p.fewer, few))
              (λ q. absurd (omega (arith, q))))
      ]
    where
      executed :
          Kept g (put g c (record k { streams = slots }))
          → (id == k.execed) ≡ true
          → Ends
              (put g c (record k { streams = slots }))
              (delete c (put g c (record k { streams = slots })))
              (ClientEnded c (put g c (record k { streams = slots })))
          → Left c
      executed p same (inl (d, q)) = inl (
        leave_exited delete id c g known k (client_at_lem g c (some k) inside there) slots e same d,
        p.main q,
      )
      executed p same (inr (g', d, q)) = inr (
        g',
        leave_executed delete id c g known k (client_at_lem g c (some k) inside there) slots e g'
            same d,
        all-Kept (Kept-trans (but-Kept v p) (q.0)) (λ (i : IsIdle g c).
            let t : k ≡ i.0 = some_eq (some_eq (sym there ∙ i.1)) in
            let z : k.execed ≡ minus_one = ap (λ (x : Client). x.execed) t ∙ i.2 in ground arith),
      )

  pub leave_client-Left : (c : ℕ) → c ≢ 64 → Left c
  leave_client-Left c n = elim (Bool-cases (c == minus_one)) [
    | inl same ↦ inr (g, rw (same, leave_client) refl, refl-Kept 64 g v)
    | inr known ↦ elim (Bool-cases (ltb clients_max c)) [
      | inl above ↦ inr (
        g,
        leave_no_client delete id c g known (client_at_above g c (ground arith)),
        refl-Kept 64 g v,
      )
      | inr below ↦
          let inside : c < 64 = ground arith in
          let p = get_elem?-there g.clients c (omega (arith, v.clients)) in
          place-Left known inside (p.0) (p.1)
    ]
  ]
    where
      place-Left :
          (c == minus_one) ≡ false
          → c < 64
          → (p : Option Client) → get_elem? g.clients c ≡ some p
          → Left c
      place-Left known inside none e = inr (
        g,
        leave_no_client delete id c g known (client_at_lem g c none inside e),
        refl-Kept 64 g v,
      )
      place-Left known inside (some k) e =
          elim (Option-cases (replace_first id minus_one k.streams)) [
            | inl gone ↦ inr (
              g,
              leave_no_slot delete id c g known k (client_at_lem g c (some k) inside e) gone,
              refl-Kept 64 g v,
            )
            | inr (slots, p) ↦ slot-Left c k slots inside known e p
          ]
