-- ===== src/Client/Handles.antt =====
-- clients_close, clients_block and the setters (roard/clients.c).
use roaraudio.Prelude.{
  ℕ, ◌<◌, ◌≡◌, ◌≢◌, ◌⊎◌, Bool, true, some, [], ◌∷◌, ◌++◌, get_elem?, get_elem?-set_self, arith,
}
use roaraudio.Status.{ok}
use roaraudio.Meta.{done}
use roaraudio.Client.{Client, Server, put, minus_one, clients_max, close, get_fh}
use roaraudio.Prelude.Places.{get_elem?-inside}
use roaraudio.Client.Move.{client_at_lem}

-- The server after the handle of the client `c` was closed.
abbrev pub shut : Server → ℕ → Client → Server
shut g id c = record (put g id (record c { fh = minus_one })) { closed = g.closed ++ (c.fh ∷ []) }

module _ (g : Server) (id : ℕ) (c : Client) (inside : id < clients_max)
    (present : get_elem? g.clients id ≡ some (some c)) where
  shut_there : get_elem? (shut g id c).clients id ≡ some (some (record c { fh = minus_one }))
  shut_there =
      get_elem?-set_self g.clients id (some (record c { fh = minus_one }))
        (get_elem?-inside g.clients id (some c) present)

  -- `clients_close` of a client with an open handle, forced or while the client executes a stream, closes it, and
  -- however it is called again, the handle, which is then -1, is not closed twice.
  pub close-close :
      (force again : Bool)
      → c.fh ≢ minus_one
      → (force ≡ true) ⊎ (c.execed ≢ minus_one)
      → (close id force g ≡ done (ok, (shut g id c)))
        × (get_fh id (shut g id c) ≡ done minus_one)
        × (close id again (shut g id c) ≡ done (ok, (shut g id c)))
  unfolding close get_fh
  close-close force again held why = (
    ground (arith, client_at_lem g id (some c) inside present),
    ground (
      arith,
      client_at_lem (shut g id c) id (some (record c { fh = minus_one })) inside shut_there,
    ),
    ground (
      arith,
      client_at_lem (shut g id c) id (some (record c { fh = minus_one })) inside shut_there,
    ),
  )
