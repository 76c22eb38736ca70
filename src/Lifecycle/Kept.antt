-- ===== src/Lifecycle/Kept.antt =====
-- What streams_delete and clients_delete (roard/streams.c, roard/clients.c) keep of a server.
use roaraudio.Prelude.{
  ℕ, ◌≤◌, ◌<◌, ◌≡◌, ◌≢◌, ◌⊎◌, inl, inr, refl, sym, ◌∙◌, ap, true, Option, none, some, List,
  get_elem?, set, length, length-set, arith, Bool-cases, ◌==◌, ==-self, ==-ne,
}
use roaraudio.Prelude.Places.{get_elem?-set, get_elem?-inside}
use roaraudio.Client.{Client, Stream, Server, minus_one, put}
use roaraudio.Lifecycle.{closing, put_stream}
use roaraudio.Lifecycle.Open.{count_open, count_open-set, open_in}

-- All places of the two tables are there, each client has its slots, and no slot, no owner and no parent
-- of a stream is the number 64, which the guards _CHECK_SID and _CHECK_CID let through.
pub record IsSound (g : Server) : Type 0 where
  pub clients : length g.clients ≡ 64
  pub streams : length g.streams ≡ 64
  pub owners :
      (i : ℕ) (s : Stream)
      → get_elem? g.streams i ≡ some (some s)
      → (s.client ≢ 64) × (s.pos_rel_id ≢ 64)
  pub slots :
      (c : ℕ) (k : Client)
      → get_elem? g.clients c ≡ some (some k)
      → (length k.streams ≡ 12) × ((i v : ℕ) → get_elem? k.streams i ≡ some v → v ≢ 64)

abbrev pub IsGone : Server → ℕ → Type 0
IsGone g s = get_elem? g.streams s ≡ some none

-- The stream is there and is being closed.
abbrev pub IsClosing : Server → ℕ → Type 0
IsClosing g s = (k : Stream) × (get_elem? g.streams s ≡ some (some k)) × (k.state ≡ closing)

-- The client is there and executes no stream.
abbrev pub IsIdle : Server → ℕ → Type 0
IsIdle g c = (k : Client) × (get_elem? g.clients c ≡ some (some k)) × (k.execed ≡ minus_one)

-- The end of a stream may end the server: a primary stream is there, and the server runs.
abbrev pub MayQuit : Server → Type 0
MayQuit g =
    (g.alive ≡ true)
    × (i : ℕ) × (s : Stream) × (get_elem? g.streams i ≡ some (some s))
    × (s.primary ≡ true)

-- From `g` to `g'`: the tables stay sound, no stream is opened, those that are gone or being closed stay
-- so, and so do the clients that execute no stream, but for the client `c`. No stream becomes primary.
pub record KeptBut (c : ℕ) (g g' : Server) : Type 0 where
  pub sound : IsSound g'
  pub fewer : count_open g'.streams ≤ count_open g.streams
  pub gone : (s : ℕ) → IsGone g s → IsGone g' s
  pub shut : (s : ℕ) → IsClosing g s → IsClosing g' s
  pub idle : (j : ℕ) → j ≢ c → IsIdle g j → IsIdle g' j
  pub main : MayQuit g' → MayQuit g

-- but for no client, since there is no client 64
abbrev pub Kept : Server → Server → Type 0
Kept = KeptBut 64

-- Both tables are the same.
pub same-Kept :
    (c : ℕ) (g g' : Server)
    → IsSound g
    → g'.streams ≡ g.streams
    → g'.clients ≡ g.clients
    → g'.alive ≡ g.alive
    → KeptBut c g g'
same-Kept c g g' v e f a = record {
  sound = record {
    clients = rw f v.clients;
    streams = rw e v.streams;
    owners = λ i s h. v.owners i s (rw e at h);
    slots = λ i k h. v.slots i k (rw f at h);
  };
  fewer = rw e (omega arith);
  gone = λ s h. rw e h;
  shut = λ s h. rw e h;
  idle = λ j n h. rw f h;
  main = λ q. (sym a ∙ q.0, q.1, q.2, sym (ap (λ l. get_elem? l q.1) e) ∙ q.3, q.4);
}

pub Kept-trans : {c : ℕ} {g g' g'' : Server} → KeptBut c g g' → KeptBut c g' g'' → KeptBut c g g''
Kept-trans p q = record {
  sound = q.sound;
  fewer = omega (arith, p.fewer, q.fewer);
  gone = λ s h. q.gone s (p.gone s h);
  shut = λ s h. q.shut s (p.shut s h);
  idle = λ j n h. q.idle j n (p.idle j n h);
  main = λ x. p.main (q.main x);
}

-- A client that executes a stream is not idle.
pub all-Kept : {c : ℕ} {g g' : Server} → KeptBut c g g' → (IsIdle g c → ⊥) → Kept g g'
all-Kept {c} {g} {g'} p busy = record {
  sound = p.sound;
  fewer = p.fewer;
  gone = p.gone;
  shut = p.shut;
  main = p.main;
  idle = λ j n h. elim (Bool-cases (j == c)) [
    | inl e ↦ absurd (busy (let e' : j ≡ c = ground arith in rw e' at h))
    | inr e ↦ p.idle j (ground arith) h
  ];
}

pub but-Kept : {c : ℕ} {g g' : Server} → IsSound g → Kept g g' → KeptBut c g g'
but-Kept {c} {g} {g'} v p = record {
  sound = p.sound;
  fewer = p.fewer;
  gone = p.gone;
  shut = p.shut;
  main = p.main;
  idle = λ j n h.
      let inside = get_elem?-inside g.clients j (some h.0) (h.1) in
      p.idle j (λ e. absurd (omega (arith, e, v.clients))) h;
}

pub some_eq {ℓ} : {A : Type ℓ} {a b : A} → some a ≡ some b → a ≡ b
some_eq h = cc

-- A write into a place of a list, seen from a place that holds a value afterwards.
pub set_cases {ℓ} :
    {A : Type ℓ} (xs : List A) (i j : ℕ) (a b : A)
    → i < length xs
    → get_elem? (set xs i a) j ≡ some b
    → ((i ≡ j) × (a ≡ b)) ⊎ ((i ≢ j) × (get_elem? xs j ≡ some b))
set_cases xs i j a b h e = elim (Bool-cases (i == j)) [
  | inl same ↦ inl (ground arith, some_eq (sym (get_elem?-set xs i j a h ∙ rw same refl) ∙ e))
  | inr other ↦ inr (ground arith, sym (get_elem?-set xs i j a h ∙ rw other refl) ∙ e)
]

module _ (g : Server) (v : IsSound g) (i : ℕ) (s : Stream)
    (there : get_elem? g.streams i ≡ some (some s)) where
  inside : i < length g.streams
  inside = get_elem?-inside g.streams i (some s) there

  pub other_stays :
      (p : Option Stream) (j : ℕ) → i ≢ j → get_elem? (set g.streams i p) j ≡ get_elem? g.streams j
  other_stays p j h = get_elem?-set g.streams i j p inside ∙ rw (==-ne i j h) refl

  pub self_new : (p : Option Stream) → get_elem? (set g.streams i p) i ≡ some p
  self_new p = get_elem?-set g.streams i i p inside ∙ rw (==-self i) refl

  -- The tables stay sound whatever is stored for the stream, but for an owner 64.
  pub put-IsSound :
      (p : Option Stream)
      → ((t : Stream) → p ≡ some t → (t.client ≢ 64) × (t.pos_rel_id ≢ 64))
      → IsSound (put_stream g i p)
  put-IsSound p h = record {
    clients = v.clients;
    streams = length-set g.streams i p ∙ v.streams;
    owners = λ j t e. elim (set_cases g.streams i j p (some t) inside e) [
      | inl (same, q) ↦ h t q
      | inr (other, q) ↦ v.owners j t q
    ];
    slots = v.slots;
  }

  -- Another stream in its place, that is being closed if the first one is.
  pub put-Kept :
      (t : Stream)
      → (t.client ≢ 64) × (t.pos_rel_id ≢ 64)
      → t.primary ≡ s.primary
      → open_in (some t) ≤ open_in (some s)
      → (s.state ≡ closing → t.state ≡ closing)
      → Kept g (put_stream g i (some t))
  put-Kept t own rank less stays = record {
    sound = put-IsSound (some t) (λ t' e. let e' : t ≡ t' = some_eq e in rw (← e') own);
    fewer = omega (arith, count_open-set g.streams i (some s) (some t) there);
    gone = λ j h. elim (Bool-cases (i == j)) [
      | inl e ↦ absurd (let e' : i ≡ j = ground arith in let q = rw (← e') at h in ground arith)
      | inr e ↦ other_stays (some t) j (ground arith) ∙ h
    ];
    shut = λ j h. elim (Bool-cases (i == j)) [
      | inl e ↦
          let e' : i ≡ j = ground arith in
          let q = rw (← e') at (h.1) in
          let r : s ≡ h.0 = some_eq (some_eq (sym there ∙ q)) in
          (t, rw (← e') (self_new (some t)), stays (ap (λ (x : Stream). x.state) r ∙ h.2))
      | inr e ↦ (h.0, other_stays (some t) j (ground arith) ∙ h.1, h.2)
    ];
    idle = λ j n h. h;
    main = λ q. elim (set_cases g.streams i q.1 (some t) (some q.2) inside q.3) [
      | inl (same, e) ↦
          (q.0, i, s, there, sym rank ∙ ap (λ (x : Stream). x.primary) (some_eq e) ∙ q.4)
      | inr (other, e) ↦ (q.0, q.1, q.2, e, q.4)
    ];
  }

module _ (g : Server) (v : IsSound g) (c : ℕ) (k k' : Client)
    (there : get_elem? g.clients c ≡ some (some k)) (size : length k'.streams ≡ 12)
    (numbers : (i n : ℕ) → get_elem? k'.streams i ≡ some n → n ≢ 64)
    (idle_too : k.execed ≡ minus_one → k'.execed ≡ minus_one) where
  -- Other data of a client, that executes no stream if it did not.
  pub client-Kept : Kept g (put g c k')
  client-Kept =
      let in_table : c < length g.clients = get_elem?-inside g.clients c (some k) there in
      record {
        sound = record {
          clients = length-set g.clients c (some k') ∙ v.clients;
          streams = v.streams;
          owners = v.owners;
          slots = λ j t e. elim (set_cases g.clients c j (some k') (some t) in_table e) [
            | inl (same, q) ↦ let q' : k' ≡ t = some_eq q in rw (← q') (size, numbers)
            | inr (other, q) ↦ v.slots j t q
          ];
        };
        fewer = omega arith;
        gone = λ j h. h;
        shut = λ j h. h;
        idle = λ j n h. elim (Bool-cases (c == j)) [
          | inl e ↦
              let e' : c ≡ j = ground arith in
              let q = rw (← e') at (h.1) in
              let r : k ≡ h.0 = some_eq (some_eq (sym there ∙ q)) in
              (
                k',
                rw (← e') (get_elem?-set g.clients c c (some k') in_table ∙ rw (==-self c) refl),
                idle_too (ap (λ (x : Client). x.execed) r ∙ h.2),
              )
          | inr e ↦ (h.0, get_elem?-set g.clients c j (some k') in_table ∙ rw e (h.1), h.2)
        ];
        main = λ q. q;
      }
