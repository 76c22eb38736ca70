-- ===== src/Client/Owned.antt =====
-- Which client owns a stream (roard/clients.c): the slots of the clients and the field `client` of the
-- streams say the same, through client_stream_add and client_stream_move.
use roaraudio.Prelude.{
  ℕ, ◌<◌, ◌≡◌, ◌≢◌, sym, ap, ◌∙◌, Option, none, some, List, [], ◌==◌, if◌then◌else◌, get_elem?, set,
  length, arith, ==-self, ==-ne,
}
use roaraudio.Client.{
  Client, Stream, Server, put, minus_one, clients_max, streams_max, replace_first,
}
use roaraudio.Client.Slots.{count, one_if, count-replace_first}
use roaraudio.Prelude.Places.{of-get_elem?-set}

abbrev pub slots_in : Option (Option Client) → List ℕ
slots_in none = []
slots_in (some none) = []
slots_in (some (some c)) = c.streams

-- The slots of a client, none where there is no client.
abbrev pub slots_of : Server → ℕ → List ℕ
slots_of g c = slots_in (get_elem? g.clients c)

abbrev pub owner_in : Option (Option Stream) → ℕ
owner_in none = minus_one
owner_in (some none) = minus_one
owner_in (some (some s)) = s.client

-- The field `client` of a stream, -1 where there is no stream.
abbrev pub owner_of : Server → ℕ → ℕ
owner_of g s = owner_in (get_elem? g.streams s)

pub record IsServer (g : Server) : Type 0 where
  pub clients : length g.clients ≡ clients_max
  pub streams : length g.streams ≡ streams_max

-- The stream stands in one slot of the client that it belongs to, and in no other.
abbrev pub Holds : Server → ℕ → Type 0
Holds g s = (c : ℕ) → c < clients_max → count s (slots_of g c) ≡ one_if (owner_of g s == c)

-- The stream stands in no slot.
abbrev pub Lost : Server → ℕ → Type 0
Lost g s = (c : ℕ) → c < clients_max → count s (slots_of g c) ≡ 0

abbrev pub Owned : Server → Type 0
Owned g = (s : ℕ) → s < streams_max → Holds g s

-- client `c` with other slots
abbrev pub placed : Server → ℕ → Client → List ℕ → Server
placed g c k slots = put g c (record k { streams = slots })

-- stream `s` with another owner
abbrev pub assigned : Server → ℕ → Stream → ℕ → Server
assigned g s o c = record g { streams = set g.streams s (some (record o { client = c })) }

-- What a place in the tables is after a write.
pub slots_of-placed :
    (g : Server) (c : ℕ) (k : Client) (slots : List ℕ) (j : ℕ)
    → c < length g.clients
    → slots_of (placed g c k slots) j ≡ (if c == j then slots else slots_of g j)
slots_of-placed g c k slots j h =
    of-get_elem?-set slots_in g.clients c j (some (record k { streams = slots })) h

pub owner_of-assigned :
    (g : Server) (s : ℕ) (o : Stream) (c j : ℕ)
    → s < length g.streams
    → owner_of (assigned g s o c) j ≡ (if s == j then c else owner_of g j)
owner_of-assigned g s o c j h =
    of-get_elem?-set owner_in g.streams s j (some (record o { client = c })) h

module _ (g : Server) (v : IsServer g) (c s : ℕ) (k : Client) (o : Stream) (slots : List ℕ)
    (inside : c < clients_max) (stream : s < streams_max)
    (present : get_elem? g.clients c ≡ some (some k)) where
  abbrev pub after_add : Server
  after_add = assigned (placed g c k slots) s o c

  -- One slot more for `s` in `c`.
  pub added_Holds : replace_first minus_one s k.streams ≡ some slots → Lost g s → Holds after_add s
  added_Holds e lost j h =
      let size : c < length g.clients = omega (arith, v.clients) in
      let size' : s < length g.streams = omega (arith, v.streams) in
      let own = lost j h in
      let mine : count s k.streams ≡ 0 =
        ap (λ p. count s (slots_in p)) (sym present) ∙ lost c inside in
      rw
        (
          slots_of-placed g c k slots j size,
          owner_of-assigned (placed g c k slots) s o c s size',
          ==-self s,
        )
        (ground (arith, count-replace_first minus_one s s k.streams slots e))

  pub added_others :
      replace_first minus_one s k.streams ≡ some slots
      → (n : ℕ) → n < streams_max
      → n ≢ s
      → Holds g n
      → Holds after_add n
  added_others e n small other holds j h =
      let size : c < length g.clients = omega (arith, v.clients) in
      let size' : s < length g.streams = omega (arith, v.streams) in
      let own = holds j h in
      let mine : count n k.streams ≡ one_if (owner_of g n == c) =
        ap (λ p. count n (slots_in p)) (sym present) ∙ holds c inside in
      rw
        (
          slots_of-placed g c k slots j size,
          owner_of-assigned (placed g c k slots) s o c n size',
          ==-ne s n (λ p. other (sym p)),
        )
        (ground (arith, count-replace_first minus_one s n k.streams slots e))
