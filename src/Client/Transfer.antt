-- ===== src/Client/Transfer.antt =====
-- client_stream_move (roard/clients.c) on a server where slots and owners agree.
use roaraudio.Prelude.{
  ℕ, ◌<◌, ◌≡◌, ◌≢◌, ◌⊎◌, inl, inr, refl, sym, ap, ◌∙◌, false, Option, none, some, List, ◌==◌,
  get_elem?, length-set, arith, Bool-cases, ==-self, ==-ne,
}
use roaraudio.Status.{ok, failed}
use roaraudio.Meta.{Run, done}
use roaraudio.Client.{
  Client, Stream, Server, minus_one, clients_max, streams_max, replace_first, streams_get_client,
  client_stream_add, client_stream_delete, client_stream_move,
}
use roaraudio.Client.Slots.{
  count, one_if, count-replace_first, replace_first-some, replace_first-none,
}
use roaraudio.Prelude.Places.{get_elem?-set}
use roaraudio.Client.Owned.{slots_in, slots_of, owner_in, owner_of, IsServer, Lost, Owned, placed}
use roaraudio.Client.Move.{
  client_at_lem, stream_at_lem, IsMoved, add-IsMoved, dropped_Lost, dropped_others,
}

-- A client whose slots are not empty is there.
client_there :
    (p : Option (Option Client)) (s : ℕ)
    → 0 < count s (slots_in p)
    → (k : Client) × (p ≡ some (some k))
client_there none s h = absurd (omega arith)
client_there (some none) s h = absurd (omega arith)
client_there (some (some k)) s h = (k, refl)

module _ (clients_delete : ℕ → Server → Run Server) where
  delete_run :
      (g : Server) (old s : ℕ) (k : Client) (slots : List ℕ)
      → old < clients_max
      → get_elem? g.clients old ≡ some (some k)
      → replace_first s minus_one k.streams ≡ some slots
      → k.execed ≢ s
      → client_stream_delete clients_delete old s g ≡ done (ok, placed g old k slots)
  unfolding client_stream_delete
  delete_run g old s k slots inside present e idle =
      ground (arith, client_at_lem g old (some k) inside present)

  move_unowned :
      (g : Server) (c s : ℕ) (o : Stream)
      → s < streams_max
      → get_elem? g.streams s ≡ some (some o)
      → o.client ≡ minus_one
      → client_stream_move clients_delete c s g ≡ client_stream_add c s g
  unfolding client_stream_move streams_get_client
  move_unowned g c s o stream there e = rw (stream_at_lem g s (some o) stream there) (rw e refl)

  move_owned :
      (g g1 : Server) (c s : ℕ) (o : Stream)
      → s < streams_max
      → get_elem? g.streams s ≡ some (some o)
      → o.client < clients_max
      → client_stream_delete clients_delete o.client s g ≡ done (ok, g1)
      → client_stream_move clients_delete c s g ≡ client_stream_add c s g1
  unfolding client_stream_move streams_get_client
  move_owned g g1 c s o stream there inside run =
      let owned : (o.client == minus_one) ≡ false = ground arith in
      rw (stream_at_lem g s (some o) stream there) (rw owned (rw run refl))

add_full :
    (g : Server) (c s : ℕ) (k : Client)
    → c < clients_max
    → get_elem? g.clients c ≡ some (some k)
    → count minus_one k.streams ≡ 0
    → client_stream_add c s g ≡ done (failed, g)
unfolding client_stream_add
add_full g c s k inside present full = ground (
  arith,
  client_at_lem g c (some k) inside present,
  replace_first-none minus_one s k.streams full,
)

-- What is read of the clients after the slots of `old` lost `s`.
module _ (g : Server) (v : IsServer g) (old c s : ℕ) (k' : Client) (slots : List ℕ)
    (inside : old < clients_max) where
  there_still : old ≢ c → get_elem? (placed g old k' slots).clients c ≡ get_elem? g.clients c
  there_still other =
      get_elem?-set g.clients old c (some (record k' { streams = slots }))
        (omega (arith, v.clients))
      ∙ rw (==-ne old c other) refl

  room :
      (k : Client)
      → s < streams_max
      → replace_first s minus_one k'.streams ≡ some slots
      → get_elem? g.clients c ≡ some (some k)
      → 0 < count minus_one k.streams
      → (k1 : Client) × (get_elem? (placed g old k' slots).clients c ≡ some (some k1))
        × (0 < count minus_one k1.streams)
  room k stream e present free = elim (Bool-cases (old == c)) [
    | inl same ↦ (
      record k' { streams = slots },
      get_elem?-set g.clients old c (some (record k' { streams = slots }))
            (omega (arith, v.clients))
          ∙ rw same refl,
      ground (arith, count-replace_first s minus_one minus_one k'.streams slots e),
    )
    | inr other ↦ (k, there_still (ground arith) ∙ present, free)
  ]

module _ (clients_delete : ℕ → Server → Run Server) (g : Server) (c s : ℕ) (k : Client) (o : Stream)
    (v : IsServer g) (owned : Owned g) (inside : c < clients_max) (stream : s < streams_max)
    (present : get_elem? g.clients c ≡ some (some k))
    (there : get_elem? g.streams s ≡ some (some o))
    (idle : (k' : Client) → get_elem? g.clients o.client ≡ some (some k') → k'.execed ≢ s) where
  owner_lem : owner_of g s ≡ o.client
  owner_lem = ap owner_in there

  -- The first half of a move, away from the client that owns the stream.
  away :
      o.client < clients_max
      → (k' : Client) × (slots : List ℕ) × (get_elem? g.clients o.client ≡ some (some k'))
        × (replace_first s minus_one k'.streams ≡ some slots)
        × (client_stream_delete clients_delete o.client s g ≡ done (ok, placed g o.client k' slots))
  away h =
      let once : count s (slots_of g o.client) ≡ 1 =
        owned s stream o.client h
        ∙ ap (λ n. one_if (n == o.client)) owner_lem
        ∙ rw (==-self o.client) refl in
      let k' = client_there (get_elem? g.clients o.client) s (omega (arith, once)) in
      let mine : count s k'.0.streams ≡ 1 = ap (λ p. count s (slots_in p)) (sym k'.1) ∙ once in
      let r = replace_first-some s minus_one k'.0.streams (omega (arith, mine)) in
      (
        k'.0,
        r.0,
        k'.1,
        r.1,
        delete_run clients_delete g o.client s k'.0 r.0 h k'.1 r.1 (idle k'.0 k'.1),
      )

  -- In a server with all places of its two tables, whose slots and owners agree,
  -- `client_stream_move` of a stream that is no client's, or is owned by a client that does not
  -- execute it, to a client with a free slot: it succeeds whatever `clients_delete` does; the
  -- stream then belongs to that client, in exactly one slot, no other stream changes its owner,
  -- and slots and owners of all streams still agree.
  pub move-IsMoved :
      0 < count minus_one k.streams
      → (o.client ≡ minus_one) ⊎ (o.client < clients_max)
      → (g' : Server) × (client_stream_move clients_delete c s g ≡ done (ok, g')) × IsMoved g g' c s
  move-IsMoved free (inl nobody) =
      let lost : Lost g s = λ j h.
        owned s stream j h
        ∙ ap (λ n. one_if (n == j)) (owner_lem ∙ nobody)
        ∙ rw (==-ne minus_one j (ground arith)) refl in
      let r =
        add-IsMoved g c s k o v (λ n small ne. owned n small) lost inside stream present there
          free in
      (r.0, move_unowned clients_delete g c s o stream there nobody ∙ r.1, r.2)
  move-IsMoved free (inr h) =
      let a = away h in
      let g1 = placed g o.client a.0 a.1 in
      let v1 : IsServer g1 = record {
        clients = length-set g.clients o.client (some (record a.0 { streams = a.1 })) ∙ v.clients;
        streams = v.streams;
      } in
      let n = room g v o.client c s a.0 a.1 h k stream a.3 present free in
      let r =
        add-IsMoved g1 c s n.0 o v1
          (dropped_others g v owned o.client s a.0 a.1 h stream a.2 owner_lem a.3)
          (dropped_Lost g v owned o.client s a.0 a.1 h stream a.2 owner_lem a.3) inside stream n.1
          there n.2 in
      let m : IsMoved g r.0 c s = record {
        server = r.2.server;
        owned = r.2.owned;
        owner = r.2.owner;
        others = r.2.others;
      } in
      (r.0, move_owned clients_delete g g1 c s o stream there h a.4 ∙ r.1, m)

  -- In such a server `client_stream_move` of a stream that another client owns and does not
  -- execute, to a client without a free slot, fails, and the stream is lost: it stands in no
  -- client's slots any more, while it still names the client that had it.
  pub move-full :
      count minus_one k.streams ≡ 0
      → o.client < clients_max
      → o.client ≢ c
      → (g' : Server) × (client_stream_move clients_delete c s g ≡ done (failed, g'))
        × Lost g' s
        × (owner_of g' s ≡ o.client)
  move-full full h other =
      let a = away h in
      let g1 = placed g o.client a.0 a.1 in
      let present1 = there_still g v o.client c s a.0 a.1 h other ∙ present in
      (
        g1,
        move_owned clients_delete g g1 c s o stream there h a.4
            ∙ add_full g1 c s k inside present1 full,
        dropped_Lost g v owned o.client s a.0 a.1 h stream a.2 owner_lem a.3,
        owner_lem,
      )
