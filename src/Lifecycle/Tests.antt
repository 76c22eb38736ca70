-- ===== src/Lifecycle/Tests.antt =====
-- Ends of streams and of clients.
use roaraudio.Prelude.{
  ℕ, zero, suc, ◌≡◌, ◌≢◌, refl, ap, Bool, true, Option, none, some, List, [], ◌∷◌, ◌++◌, ◌==◌, ◌&&◌,
  not, get_elem?, length, replicate, arith,
}
use roaraudio.Meta.{done, exited}
use roaraudio.Client.{
  Client, Stream, Server, new_client, minus_one, client_at, stream_at, streams_set_client,
  free_place, client_stream_delete,
}
use roaraudio.Client.Tests.{alice, played, house}
use roaraudio.Lifecycle.{
  new_stream, streams_new, end_stream, end_client, streams_delete, clients_delete,
}
use roaraudio.Lifecycle.Kept.{Kept, some_eq}
use roaraudio.Lifecycle.Newborn.{streams_delete-streams_new}
use roaraudio.Memory.{add_size}

-- Client 1 goes with its twelve streams.
clients_delete-bob :
    clients_delete 2 1 house
    ≡ done (record house {
      clients = some alice ∷ none ∷ some new_client ∷ replicate 61 none;
      streams = some (played 0) ∷ replicate 63 none;
      counter = 2;
      stream_counter = 1;
    })
unfolding clients_delete client_at end_client stream_at client_stream_delete
clients_delete-bob = refl

-- Client 0 is executed on its stream, which takes it along; its handle is not closed.
abbrev executed : Server
executed = record house {
  clients = some (record alice { fh = 7; execed = 0 }) ∷ replicate 63 none;
  streams = some (played 0) ∷ replicate 63 none;
  counter = 1;
  stream_counter = 1;
}

streams_delete-executed :
    streams_delete 3 0 executed
    ≡ done (record house {
      clients = replicate 64 none;
      streams = replicate 64 none;
      counter = 0;
      stream_counter = 0;
    })
unfolding streams_delete clients_delete stream_at end_stream client_stream_delete client_at
streams_delete-executed = refl

-- Stream 1 is the output of stream 0 and virtual, stream 2 is related to it and stays.
abbrev family : Server
family = record house {
  clients = replicate 64 none;
  streams =
      some (played minus_one)
      ∷ some (record (played minus_one) { pos_rel_id = 0; virtual = true; recsource = true })
      ∷ some (record (played minus_one) { pos_rel_id = 0 })
      ∷ replicate 61 none;
  recsource_id = 1;
  stream_counter = 3;
}

streams_delete-family :
    streams_delete 2 0 family
    ≡ done (record family {
      streams = none ∷ none ∷ some (played minus_one) ∷ replicate 61 none;
      recsource_id = minus_one;
      stream_counter = 1;
    })
unfolding streams_delete clients_delete stream_at end_stream streams_set_client
streams_delete-family = refl

-- The first free place gets the new stream.
streams_new-house : streams_new true true house ≡ (
  13,
  record house {
    streams =
        some (played 0) ∷ (replicate 12 (some (played 1)) ++ some new_stream ∷ replicate 50 none);
    stream_counter = 14;
    stream_sum = 14;
  },
)
unfolding streams_new free_place
streams_new-house = refl

-- A virtual stream tells its parent, whose codec filter deletes it: both are gone.
abbrev told : Server
told = record family {
  streams =
      some (record (played minus_one) { filter_deletes = true })
      ∷ some (record (played minus_one) { pos_rel_id = 0; virtual = true })
      ∷ replicate 62 none;
  recsource_id = minus_one;
  stream_counter = 2;
}

streams_delete-told :
    streams_delete 2 1 told ≡ done (record told { streams = replicate 64 none; stream_counter = 0 })
unfolding streams_delete clients_delete stream_at end_stream streams_set_client
streams_delete-told = refl

-- The end of a primary stream ends the server.
streams_delete-primary :
    streams_delete 2 0 (record family {
      streams = some (record (played minus_one) { primary = true }) ∷ replicate 63 none;
    })
    ≡ exited
unfolding streams_delete clients_delete stream_at end_stream
streams_delete-primary = refl

-- What IsSound asks of the numbers, as a test.
abbrev no_64 : List ℕ → Bool
no_64 [] = true
no_64 (n ∷ ns) = not (n == 64) && no_64 ns

-- The owners, or the parents, of the streams.
abbrev numbers_of : (Stream → ℕ) → List (Option Stream) → List ℕ
numbers_of f [] = []
numbers_of f (none ∷ ps) = 0 ∷ numbers_of f ps
numbers_of f (some s ∷ ps) = f s ∷ numbers_of f ps

abbrev AreFine : List (Option Client) → Type 0
AreFine [] = Unit {0}
AreFine (none ∷ ps) = AreFine ps
AreFine (some k ∷ ps) = (length k.streams ≡ 12) × (no_64 k.streams ≡ true) × AreFine ps

nothing_there : (k j : ℕ) (s : Stream) → get_elem? (replicate k none) j ≢ some (some s)
nothing_there zero j s e = absurd (ground arith)
nothing_there (suc k) zero s e = absurd (ground arith)
nothing_there (suc k) (suc j) s e = nothing_there k j s e

executed_others :
    (j : ℕ) (s : Stream) → get_elem? executed.streams j ≡ some (some s) → s.pos_rel_id ≢ 1
executed_others zero s e z =
    let q : minus_one ≡ s.pos_rel_id = ap (λ (x : Stream). x.pos_rel_id) (some_eq (some_eq e)) in
    omega (arith, q, z)
executed_others (suc j) s e z = nothing_there 63 j s e

streams_delete-streams_new_example :
    ((streams_new true true executed).0 ≡ 1)
    × (streams_delete 1 1 (streams_new true true executed).1
        ≡ done (record executed { stream_sum = add_size executed.stream_sum 1 }))
unfolding free_place
streams_delete-streams_new_example =
    streams_delete-streams_new 0 1 executed refl (omega arith) refl executed_others
