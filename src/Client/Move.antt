-- ===== src/Client/Move.antt =====
-- client_stream_add and client_stream_move (roard/clients.c): to whom a stream belongs after them.
use roaraudio.Prelude.{
  ℕ, ◌<◌, ◌≡◌, ◌≢◌, inl, inr, refl, sym, ap, ◌∙◌, true, false, Option, some, List, ◌==◌, ltb,
  get_elem?, length, length-set, arith, Bool-cases, ==-self, ==-ne,
}
use roaraudio.Status.{ok}
use roaraudio.Meta.{done}
use roaraudio.Client.{
  Client, Stream, Server, minus_one, clients_max, streams_max, client_at, stream_at, replace_first,
  streams_set_client, client_stream_add,
}
use roaraudio.Client.Slots.{count, one_if, count-replace_first, replace_first-some}
use roaraudio.Client.Owned.{
  slots_in, slots_of, owner_of, IsServer, Holds, Lost, Owned, placed, assigned, added_Holds,
  added_others, slots_of-placed, owner_of-assigned,
}

pub client_at_lem :
    (g : Server) (c : ℕ) (p : Option Client)
    → c < clients_max
    → get_elem? g.clients c ≡ some p
    → client_at g c ≡ done p
unfolding client_at
client_at_lem g c p h e =
    let inside : ltb clients_max c ≡ false = ground arith in rw inside (rw e refl)

pub stream_at_lem :
    (g : Server) (s : ℕ) (p : Option Stream)
    → s < streams_max
    → get_elem? g.streams s ≡ some p
    → stream_at g s ≡ done p
unfolding stream_at
stream_at_lem g s p h e =
    let inside : ltb streams_max s ≡ false = ground arith in rw inside (rw e refl)

-- `g'` is `g` after stream `s` went to client `c`.
pub record IsMoved (g g' : Server) (c s : ℕ) : Type 0 where
  pub server : IsServer g'
  pub owned : Owned g'
  pub owner : owner_of g' s ≡ c
  pub others : (n : ℕ) → n ≢ s → owner_of g' n ≡ owner_of g n

add_run :
    (g : Server) (c s : ℕ) (k : Client) (o : Stream) (slots : List ℕ)
    → c < clients_max
    → s < streams_max
    → get_elem? g.clients c ≡ some (some k)
    → get_elem? g.streams s ≡ some (some o)
    → replace_first minus_one s k.streams ≡ some slots
    → client_stream_add c s g ≡ done (ok, assigned (placed g c k slots) s o c)
unfolding client_stream_add streams_set_client
add_run g c s k o slots inside stream present there e = ground (
  arith,
  client_at_lem g c (some k) inside present,
  stream_at_lem (placed g c k slots) s (some o) stream there,
)

-- `client_stream_add` of a stream that no client has, to a client with a free slot.
pub add-IsMoved :
    (g : Server) (c s : ℕ) (k : Client) (o : Stream)
    → IsServer g
    → ((n : ℕ) → n < streams_max → n ≢ s → Holds g n)
    → Lost g s
    → c < clients_max
    → s < streams_max
    → get_elem? g.clients c ≡ some (some k)
    → get_elem? g.streams s ≡ some (some o)
    → 0 < count minus_one k.streams
    → (g' : Server) × (client_stream_add c s g ≡ done (ok, g')) × IsMoved g g' c s
add-IsMoved g c s k o v rest lost inside stream present there free =
    let r = replace_first-some minus_one s k.streams free in
    let g' = assigned (placed g c k r.0) s o c in
    let size : s < length g.streams = omega (arith, v.streams) in
    let moved : IsMoved g g' c s = record {
      server = record {
        clients = length-set g.clients c (some (record k { streams = r.0 })) ∙ v.clients;
        streams = length-set g.streams s (some (record o { client = c })) ∙ v.streams;
      };
      owned = λ n small. elim (Bool-cases (n == s)) [
        | inl same ↦ rw (n_is n s same) (added_Holds g v c s k o r.0 inside stream present r.1 lost)
        | inr other ↦
            let ne : n ≢ s = ground arith in
            added_others g v c s k o r.0 inside stream present r.1 n small ne (rest n small ne)
      ];
      owner = owner_of-assigned (placed g c k r.0) s o c s size ∙ rw (==-self s) refl;
      others = λ n ne.
          owner_of-assigned (placed g c k r.0) s o c n size ∙ rw (==-ne s n (λ p. ne (sym p))) refl;
    } in
    (g', add_run g c s k o r.0 inside stream present there r.1, moved)
  where
    n_is : (n s : ℕ) → (n == s) ≡ true → n ≡ s
    n_is n s h = ground arith

module _ (g : Server) (v : IsServer g) (owned : Owned g) (old s : ℕ) (k : Client) (slots : List ℕ)
    (inside : old < clients_max) (stream : s < streams_max)
    (present : get_elem? g.clients old ≡ some (some k)) (owns : owner_of g s ≡ old)
    (e : replace_first s minus_one k.streams ≡ some slots) where
  pub dropped_Lost : Lost (placed g old k slots) s
  dropped_Lost j h =
      let size : old < length g.clients = omega (arith, v.clients) in
      let own : count s (slots_of g j) ≡ one_if (old == j) =
        owned s stream j h ∙ ap (λ n. one_if (n == j)) owns in
      let mine : count s k.streams ≡ one_if (old == old) =
        ap (λ p. count s (slots_in p)) (sym present)
        ∙ owned s stream old inside
        ∙ ap (λ n. one_if (n == old)) owns in
      rw (slots_of-placed g old k slots j size)
        (ground (arith, count-replace_first s minus_one s k.streams slots e))

  pub dropped_others : (n : ℕ) → n < streams_max → n ≢ s → Holds (placed g old k slots) n
  dropped_others n small other j h =
      let size : old < length g.clients = omega (arith, v.clients) in
      let own = owned n small j h in
      let mine : count n k.streams ≡ one_if (owner_of g n == old) =
        ap (λ p. count n (slots_in p)) (sym present) ∙ owned n small old inside in
      rw (slots_of-placed g old k slots j size)
        (ground (arith, count-replace_first s minus_one n k.streams slots e))
