-- ===== src/Lifecycle/Deletes.antt =====
-- streams_delete (roard/streams.c) and clients_delete (roard/clients.c), which call each other: with
-- fuel for every open stream they return, and what they were called for is gone.
use roaraudio.Prelude.{ℕ, suc, ◌≡◌, refl, false, some, ◌==◌}
use roaraudio.Meta.{done, and_then}
use roaraudio.Client.{Client, Stream, Server, stream_at}
use roaraudio.Lifecycle.{end_stream, closing, streams_delete, clients_delete}
use roaraudio.Lifecycle.Kept.{Kept}
use roaraudio.Lifecycle.Ends.{Ends}

-- What the two functions do with what they find.
module _ (fuel id : ℕ) (g : Server) where
  pub open_stream :
      (s : Stream)
      → stream_at g id ≡ done (some s)
      → (s.state == closing) ≡ false
      → streams_delete (suc fuel) id g
        ≡ end_stream (streams_delete fuel) (clients_delete fuel) id s g
  unfolding streams_delete clients_delete
  open_stream s a b = rw (a, and_then, b) refl
