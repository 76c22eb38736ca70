-- ===== src/Client/Tests.antt =====
-- Runs of the theorems on the table of clients.
use roaraudio.Prelude.{
  ℕ, zero, suc, ◌+◌, ◌≡◌, inr, refl, ap, true, false, none, some, [], ◌∷◌, ◌++◌, get_elem?,
  replicate, arith,
}
use roaraudio.Status.{ok, failed}
use roaraudio.Meta.{Run, done, fault}
use roaraudio.Client.{
  free_place, Client, Stream, Server, new_client, minus_one, put, client_stream_move,
}
use roaraudio.Client.Slots.{count, count-replicate}
use roaraudio.Client.Owned.{slots_in, owner_in, owner_of, IsServer, Owned, Lost}
use roaraudio.Client.Move.{IsMoved}
use roaraudio.Client.Transfer.{move-IsMoved, move-full}

-- Client 0 owns stream 0, client 1 the streams 1 to 12, and client 2 owns none.
abbrev pub alice : Client
alice = record new_client { streams = 0 ∷ replicate 11 minus_one }

abbrev pub bob : Client
bob = record new_client { streams = 1 ∷ 2 ∷ 3 ∷ 4 ∷ 5 ∷ 6 ∷ 7 ∷ 8 ∷ 9 ∷ 10 ∷ 11 ∷ 12 ∷ [] }

-- a playback stream
abbrev pub played : ℕ → Stream
played c = record {
  client = c;
  dir = 1;
  pos_rel_id = minus_one;
  state = 3;
  virtual = false;
  recsource = false;
  primary = false;
  filter_deletes = false;
}

abbrev pub house : Server
house = record {
  clients = some alice ∷ some bob ∷ some new_client ∷ replicate 61 none;
  streams = some (played 0) ∷ (replicate 12 (some (played 1)) ++ replicate 51 none);
  counter = 3;
  sum = 3;
  closed = [];
  announced = 0 ∷ 1 ∷ 2 ∷ [];
  stream_counter = 13;
  stream_sum = 13;
  recsource_id = minus_one;
  thru_num = 0;
  alive = true;
}

pub house-IsServer : IsServer house
house-IsServer = record { clients = refl; streams = refl }

pub house_free : free_place house.clients ≡ some 3
unfolding free_place
house_free = refl

slots_nothing : (k c : ℕ) → slots_in (get_elem? (replicate k none) c) ≡ []
slots_nothing zero c = refl
slots_nothing (suc k) zero = refl
slots_nothing (suc k) (suc c) = slots_nothing k c

owner_nothing : (k n : ℕ) → owner_in (get_elem? (replicate k none) n) ≡ minus_one
owner_nothing zero n = refl
owner_nothing (suc k) zero = refl
owner_nothing (suc k) (suc n) = owner_nothing k n

pub house-Owned : Owned house
house-Owned zero h zero b = refl
house-Owned zero h (suc zero) b = refl
house-Owned zero h (suc (suc zero)) b = refl
house-Owned zero h (suc (suc (suc c))) b = ground (arith, ap (count 0) (slots_nothing 61 c))
house-Owned (suc zero) h zero b = refl
house-Owned (suc zero) h (suc zero) b = refl
house-Owned (suc zero) h (suc (suc zero)) b = refl
house-Owned (suc zero) h (suc (suc (suc c))) b = ground (arith, ap (count 1) (slots_nothing 61 c))
house-Owned (suc (suc zero)) h zero b = refl
house-Owned (suc (suc zero)) h (suc zero) b = refl
house-Owned (suc (suc zero)) h (suc (suc zero)) b = refl
house-Owned (suc (suc zero)) h (suc (suc (suc c))) b =
    ground (arith, ap (count 2) (slots_nothing 61 c))
house-Owned (suc (suc (suc zero))) h zero b = refl
house-Owned (suc (suc (suc zero))) h (suc zero) b = refl
house-Owned (suc (suc (suc zero))) h (suc (suc zero)) b = refl
house-Owned (suc (suc (suc zero))) h (suc (suc (suc c))) b =
    ground (arith, ap (count 3) (slots_nothing 61 c))
house-Owned (suc (suc (suc (suc zero)))) h zero b = refl
house-Owned (suc (suc (suc (suc zero)))) h (suc zero) b = refl
house-Owned (suc (suc (suc (suc zero)))) h (suc (suc zero)) b = refl
house-Owned (suc (suc (suc (suc zero)))) h (suc (suc (suc c))) b =
    ground (arith, ap (count 4) (slots_nothing 61 c))
house-Owned (suc (suc (suc (suc (suc zero))))) h zero b = refl
house-Owned (suc (suc (suc (suc (suc zero))))) h (suc zero) b = refl
house-Owned (suc (suc (suc (suc (suc zero))))) h (suc (suc zero)) b = refl
house-Owned (suc (suc (suc (suc (suc zero))))) h (suc (suc (suc c))) b =
    ground (arith, ap (count 5) (slots_nothing 61 c))
house-Owned (suc (suc (suc (suc (suc (suc zero)))))) h zero b = refl
house-Owned (suc (suc (suc (suc (suc (suc zero)))))) h (suc zero) b = refl
house-Owned (suc (suc (suc (suc (suc (suc zero)))))) h (suc (suc zero)) b = refl
house-Owned (suc (suc (suc (suc (suc (suc zero)))))) h (suc (suc (suc c))) b =
    ground (arith, ap (count 6) (slots_nothing 61 c))
house-Owned (suc (suc (suc (suc (suc (suc (suc zero))))))) h zero b = refl
house-Owned (suc (suc (suc (suc (suc (suc (suc zero))))))) h (suc zero) b = refl
house-Owned (suc (suc (suc (suc (suc (suc (suc zero))))))) h (suc (suc zero)) b = refl
house-Owned (suc (suc (suc (suc (suc (suc (suc zero))))))) h (suc (suc (suc c))) b =
    ground (arith, ap (count 7) (slots_nothing 61 c))
house-Owned (suc (suc (suc (suc (suc (suc (suc (suc zero)))))))) h zero b = refl
house-Owned (suc (suc (suc (suc (suc (suc (suc (suc zero)))))))) h (suc zero) b = refl
house-Owned (suc (suc (suc (suc (suc (suc (suc (suc zero)))))))) h (suc (suc zero)) b = refl
house-Owned (suc (suc (suc (suc (suc (suc (suc (suc zero)))))))) h (suc (suc (suc c))) b =
    ground (arith, ap (count 8) (slots_nothing 61 c))
house-Owned (suc (suc (suc (suc (suc (suc (suc (suc (suc zero))))))))) h zero b = refl
house-Owned (suc (suc (suc (suc (suc (suc (suc (suc (suc zero))))))))) h (suc zero) b = refl
house-Owned (suc (suc (suc (suc (suc (suc (suc (suc (suc zero))))))))) h (suc (suc zero)) b = refl
house-Owned (suc (suc (suc (suc (suc (suc (suc (suc (suc zero))))))))) h (suc (suc (suc c))) b =
    ground (arith, ap (count 9) (slots_nothing 61 c))
house-Owned (suc (suc (suc (suc (suc (suc (suc (suc (suc (suc zero)))))))))) h zero b = refl
house-Owned (suc (suc (suc (suc (suc (suc (suc (suc (suc (suc zero)))))))))) h (suc zero) b = refl
house-Owned (suc (suc (suc (suc (suc (suc (suc (suc (suc (suc zero)))))))))) h (suc (suc zero)) b =
    refl
house-Owned (suc (suc (suc (suc (suc (suc (suc (suc (suc (suc zero)))))))))) h (suc (suc (suc c)))
      b =
    ground (arith, ap (count 10) (slots_nothing 61 c))
house-Owned (suc (suc (suc (suc (suc (suc (suc (suc (suc (suc (suc zero))))))))))) h zero b = refl
house-Owned (suc (suc (suc (suc (suc (suc (suc (suc (suc (suc (suc zero))))))))))) h (suc zero) b =
    refl
house-Owned (suc (suc (suc (suc (suc (suc (suc (suc (suc (suc (suc zero))))))))))) h
      (suc (suc zero)) b =
    refl
house-Owned (suc (suc (suc (suc (suc (suc (suc (suc (suc (suc (suc zero))))))))))) h
      (suc (suc (suc c))) b =
    ground (arith, ap (count 11) (slots_nothing 61 c))
house-Owned (suc (suc (suc (suc (suc (suc (suc (suc (suc (suc (suc (suc zero)))))))))))) h zero b =
    refl
house-Owned (suc (suc (suc (suc (suc (suc (suc (suc (suc (suc (suc (suc zero)))))))))))) h
      (suc zero) b =
    refl
house-Owned (suc (suc (suc (suc (suc (suc (suc (suc (suc (suc (suc (suc zero)))))))))))) h
      (suc (suc zero)) b =
    refl
house-Owned (suc (suc (suc (suc (suc (suc (suc (suc (suc (suc (suc (suc zero)))))))))))) h
      (suc (suc (suc c))) b =
    ground (arith, ap (count 12) (slots_nothing 61 c))
house-Owned (suc (suc (suc (suc (suc (suc (suc (suc (suc (suc (suc (suc (suc n))))))))))))) h zero
      b =
    ground (arith, owner_nothing 51 n, count-replicate (13 + n) minus_one 11 (omega arith))
house-Owned (suc (suc (suc (suc (suc (suc (suc (suc (suc (suc (suc (suc (suc n))))))))))))) h
      (suc zero) b =
    ground (arith, owner_nothing 51 n)
house-Owned (suc (suc (suc (suc (suc (suc (suc (suc (suc (suc (suc (suc (suc n))))))))))))) h
      (suc (suc zero)) b =
    ground (arith, owner_nothing 51 n, count-replicate (13 + n) minus_one 12 (omega arith))
house-Owned (suc (suc (suc (suc (suc (suc (suc (suc (suc (suc (suc (suc (suc n))))))))))))) h
      (suc (suc (suc c))) b =
    ground (
      arith,
      owner_nothing 51 n,
      ap (count (suc (suc (suc (suc (suc (suc (suc (suc (suc (suc (suc (suc (suc n))))))))))))))
          (slots_nothing 61 c),
    )

-- A deletion that is not reached.
abbrev unreached : ℕ → Server → Run Server
unreached id g = fault

move-IsMoved_example :
    (g' : Server) × (client_stream_move unreached 2 0 house ≡ done (ok, g')) × IsMoved house g' 2 0
move-IsMoved_example =
    move-IsMoved unreached house 2 0 new_client (played 0) house-IsServer house-Owned (omega arith)
      (omega arith) refl refl (λ k e. ground arith) (omega arith) (inr (omega arith))

move-full_example :
    (g' : Server) × (client_stream_move unreached 1 0 house ≡ done (failed, g'))
    × Lost g' 0
    × (owner_of g' 0 ≡ 0)
move-full_example =
    move-full unreached house 1 0 bob (played 0) house-IsServer house-Owned (omega arith)
      (omega arith) refl refl (λ k e. ground arith) refl (omega arith) (λ e. omega (arith, e))

-- client 0 with handle 5
abbrev connected : Server
connected = put house 0 (record alice { fh = 5 })
