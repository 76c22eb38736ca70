-- ===== src/Lifecycle/Ends.antt =====
-- What streams_delete and clients_delete promise (roard/streams.c, roard/clients.c), and their loops.
use roaraudio.Prelude.{
  ℕ, zero, suc, ◌+◌, ◌≤◌, ◌<◌, ◌≡◌, ◌≢◌, ◌⊎◌, ◌∙◌, inl, inr, refl, Option, none, some, List, [],
  ◌∷◌, get_elem?, length, arith, Bool-cases, ◌==◌,
}
use roaraudio.Meta.{Run, done, exited, and_then}
use roaraudio.Client.{Stream, Server, minus_one}
use roaraudio.Lifecycle.{closing, put_stream, each, is_bound, end_related, end_owned}
use roaraudio.Lifecycle.Open.{count_open}
use roaraudio.Lifecycle.Kept.{IsSound, MayQuit, IsGone, IsIdle, KeptBut, Kept, same-Kept, put-Kept}

pub refl-Kept : (c : ℕ) (g : Server) → IsSound g → KeptBut c g g
refl-Kept c g v = same-Kept c g g v refl refl refl

-- A computation that began at `g` returns what `P` says, or ends the server, which `g` allows.
abbrev pub Ends : (g : Server) → Run Server → (Server → Type 0) → Type 0
Ends g r P = ((r ≡ exited) × MayQuit g) ⊎ ((g' : Server) × (r ≡ done g') × P g')

pub Ends-eq :
    (g : Server) (r r' : Run Server) (P : Server → Type 0) → r ≡ r' → Ends g r' P → Ends g r P
Ends-eq g r r' P e (inl (x, q)) = inl (e ∙ x, q)
Ends-eq g r r' P e (inr (g', x, p)) = inr (g', e ∙ x, p)

pub Ends-map :
    (g h : Server) (r : Run Server) (P Q : Server → Type 0)
    → (MayQuit g → MayQuit h)
    → ((g' : Server) → P g' → Q g')
    → Ends g r P
    → Ends h r Q
Ends-map g h r P Q quit f (inl (x, q)) = inl (x, quit q)
Ends-map g h r P Q quit f (inr (g', x, p)) = inr (g', x, f g' p)

pub Ends-then :
    (g : Server) (r : Run Server) (f : Server → Run Server) (P Q : Server → Type 0)
    → Ends g r P
    → ((g' : Server) → P g' → Ends g (f g') Q)
    → Ends g (and_then r f) Q
Ends-then g r f P Q (inl (x, q)) k = inl (rw (x, and_then) refl, q)
Ends-then g r f P Q (inr (g', x, p)) k =
    Ends-eq g (and_then r f) (f g') Q (rw (x, and_then) refl) (k g' p)

-- A stream that was not being closed is gone.
abbrev pub Ended : (g g' : Server) → ℕ → Type 0
Ended g g' id =
    (s : Stream) → get_elem? g.streams id ≡ some (some s) → s.state ≢ closing → IsGone g' id

-- What the two delete functions promise on a server with at most `m` open streams.
abbrev pub StreamEnded : ℕ → Server → Server → Type 0
StreamEnded id g g' = Kept g g' × Ended g g' id

abbrev pub ClientEnded : ℕ → Server → Server → Type 0
ClientEnded c g g' = KeptBut c g g' × (c < 64 → get_elem? g'.clients c ≡ some none)

abbrev pub DeletesStreams : (m : ℕ) → (ℕ → Server → Run Server) → Type 0
DeletesStreams m delete =
    (id : ℕ) (g : Server)
    → IsSound g
    → count_open g.streams ≤ m
    → id ≢ 64
    → Ends g (delete id g) (StreamEnded id g)

abbrev pub DeletesClients : (m : ℕ) → (ℕ → Server → Run Server) → Type 0
DeletesClients m delete =
    (c : ℕ) (g : Server)
    → IsSound g
    → count_open g.streams ≤ m
    → c ≢ 64
    → Ends g (delete c g) (ClientEnded c g)

-- A loop whose rounds keep what they are given, from `g0` on.
module _ (step : ℕ → Server → Run Server) (limit : ℕ) (g0 : Server) (P : Server → Type 0)
    (safe : (i : ℕ) (g : Server) → i < limit → P g → Ends g0 (step i g) P) where
  pub each_lem : (i n : ℕ) (g : Server) → i + n ≤ limit → P g → Ends g0 (each step i n g) P
  unfolding each
  each_lem i zero g h p = inr (g, refl, p)
  each_lem i (suc n) g h p =
      Ends-then g0 (step i g) (each step (i + 1) n) P P (safe i g (omega arith) p)
        (λ g' q. each_lem (i + 1) n g' (omega arith) q)

pub get_elem?-there {ℓ} :
    {A : Type ℓ} (xs : List A) (i : ℕ) → i < length xs → (v : A) × (get_elem? xs i ≡ some v)
get_elem?-there [] i h = absurd (omega arith)
get_elem?-there (x ∷ xs) zero h = (x, refl)
get_elem?-there (x ∷ xs) (suc i) h = get_elem?-there xs i (omega arith)

module _ (m : ℕ) (delete_stream : ℕ → Server → Run Server)
    (ends : DeletesStreams m delete_stream) where
  -- A stream of any number but 64 that is deleted in a round of a loop.
  pub delete_stream-Kept :
      (i : ℕ) (g : Server) (r : Run Server)
      → IsSound g
      → count_open g.streams ≤ m
      → i ≢ 64
      → r ≡ delete_stream i g
      → Ends g r (Kept g)
  delete_stream-Kept i g r v few n e = Ends-eq g r (delete_stream i g) (Kept g) e (
      Ends-map g g (delete_stream i g) (StreamEnded i g) (Kept g) (λ q. q) (λ g' p. p.0)
        (ends i g v few n))

  pub related_lem :
      (id i : ℕ) (g : Server)
      → i < 64
      → IsSound g
      → count_open g.streams ≤ m
      → Ends g (end_related delete_stream id i g) (Kept g)
  related_lem id i g h v few =
      let p = get_elem?-there g.streams i (omega (arith, v.streams)) in related (p.0) (p.1)
    where
      related :
          (p : Option Stream)
          → get_elem? g.streams i ≡ some p
          → Ends g (end_related delete_stream id i g) (Kept g)
      related none e = inr (g, rw (e, end_related) refl, refl-Kept 64 g v)
      related (some s) e = elim (Bool-cases (s.pos_rel_id == id)) [
        | inr other ↦ inr (g, rw (e, end_related, other) refl, refl-Kept 64 g v)
        | inl same ↦ elim (Bool-cases (is_bound s)) [
          | inr free ↦ inr (
            put_stream g i (some (record s { pos_rel_id = minus_one })),
            rw (e, end_related, same, free) refl,
            put-Kept g v i s e (record s { pos_rel_id = minus_one })
                ((v.owners i s e).0, (λ q. omega (arith, q))) refl (omega arith) (λ q. q),
          )
          | inl bound ↦ elim (Bool-cases (i == id)) [
            | inl self ↦ inr (g, rw (e, end_related, same, bound, self) refl, refl-Kept 64 g v)
            | inr child ↦
                delete_stream-Kept i g (end_related delete_stream id i g) v few
                  (λ q. absurd (omega (arith, q))) (rw (e, end_related, same, bound, child) refl)
          ]
        ]
      ]

  pub owned_lem :
      (c i : ℕ) (g : Server)
      → i < 12
      → IsSound g
      → count_open g.streams ≤ m
      → IsIdle g c
      → Ends g (end_owned delete_stream c i g) (Kept g)
  owned_lem c i g h v few (k, there, idle) =
      let slots = v.slots c k there in
      let s = get_elem?-there k.streams i (omega (arith, slots.0)) in
      delete_stream-Kept s.0 g (end_owned delete_stream c i g) v few (slots.1 i s.0 (s.1))
        (rw (there, end_owned, s.1) refl)
