-- ===== src/Lifecycle/Quit.antt =====
-- The end of streams_delete (roard/streams.c): a place becomes NULL, and clean_quit (roard/roard.c) is
-- called for a primary stream.
use roaraudio.Prelude.{
  ℕ, ◌≤◌, ◌<◌, ◌≡◌, ◌≢◌, inl, inr, refl, sym, ◌∙◌, ap, false, Option, none, some, get_elem?, arith,
  Bool-cases, ◌&&◌,
}
use roaraudio.Prelude.Places.{get_elem?-inside}
use roaraudio.Meta.{Run, done, exited, and_then}
use roaraudio.Client.{Client, Stream, Server}
use roaraudio.Lifecycle.{
  closing, put_stream, each, end_one_stream, end_one_client, clean_quit, free_stream,
}
use roaraudio.Lifecycle.Open.{count_open, count_open-set}
use roaraudio.Lifecycle.Kept.{
  IsSound, MayQuit, IsGone, Kept, put-IsSound, other_stays, self_new, set_cases, some_eq,
}
use roaraudio.Lifecycle.Ends.{
  Ends, Ends-map, Ends-eq, StreamEnded, ClientEnded, DeletesStreams, DeletesClients, each_lem,
  get_elem?-there,
}

module _ (g : Server) (v : IsSound g) (id : ℕ) (s : Stream)
    (there : get_elem? g.streams id ≡ some (some s)) (runs : s.state ≢ closing) where
  -- The stream is closing in `g'`, which was made from `g`, and its place becomes NULL.
  pub freed-Kept :
      (g' : Server) (s' : Stream)
      → Kept g g'
      → get_elem? g'.streams id ≡ some (some s')
      → Kept g (put_stream g' id none)
  freed-Kept g' s' p there' = record {
    sound = put-IsSound g' p.sound id s' there' none (λ t e. absurd (ground arith));
    fewer = omega (arith, count_open-set g'.streams id (some s') none there', p.fewer);
    gone = λ j h.
        let other : id ≢ j = λ e. absurd (let q = rw (← e) at h in ground arith) in
        other_stays g' p.sound id s' there' none j other ∙ p.gone j h;
    shut = λ j h.
        let other : id ≢ j = λ e. runs (
          ap (λ (x : Stream). x.state) (some_eq (some_eq (sym there ∙ (rw (← e) at (h.1)))))
          ∙ h.2) in
        let q = p.shut j h in (q.0, other_stays g' p.sound id s' there' none j other ∙ q.1, q.2);
    idle = λ j n h. p.idle j n h;
    main = λ q.
        elim (set_cases g'.streams id q.1 none (some q.2)
          (get_elem?-inside g'.streams id (some s') there') q.3) [
            | inl (same, e) ↦ absurd (ground arith)
            | inr (other, e) ↦ p.main (q.0, q.1, q.2, e, q.4)
          ];
  }

-- What the loops of clean_quit keep.
abbrev IsFew : ℕ → Server → Type 0
IsFew m g = IsSound g × (count_open g.streams ≤ m)

module _ (m : ℕ) (delete_stream delete_client : ℕ → Server → Run Server)
    (ends : DeletesStreams m delete_stream) (deletes : DeletesClients m delete_client) (g0 : Server)
    (quits : MayQuit g0) where
  end_one_stream_lem :
      (i : ℕ) (g : Server)
      → i < 64
      → IsFew m g
      → Ends g0 (end_one_stream delete_stream i g) (IsFew m)
  end_one_stream_lem i g h (v, few) =
      let p = get_elem?-there g.streams i (omega (arith, v.streams)) in one (p.0) (p.1)
    where
      one :
          (p : Option Stream)
          → get_elem? g.streams i ≡ some p
          → Ends g0 (end_one_stream delete_stream i g) (IsFew m)
      one none e = inr (g, rw (e, end_one_stream) refl, (v, few))
      one (some s) e =
          Ends-eq g0 (end_one_stream delete_stream i g) (delete_stream i g) (IsFew m)
            (rw (e, end_one_stream) refl)
            (Ends-map g g0 (delete_stream i g) (StreamEnded i g) (IsFew m) (λ q. quits)
              (λ g' p. (p.0.sound, omega (arith, p.0.fewer, few)))
              (ends i g v few (λ q. absurd (omega (arith, q)))))

  end_one_client_lem :
      (i : ℕ) (g : Server)
      → i < 64
      → IsFew m g
      → Ends g0 (end_one_client delete_client i g) (IsFew m)
  end_one_client_lem i g h (v, few) =
      let p = get_elem?-there g.clients i (omega (arith, v.clients)) in one (p.0) (p.1)
    where
      one :
          (p : Option Client)
          → get_elem? g.clients i ≡ some p
          → Ends g0 (end_one_client delete_client i g) (IsFew m)
      one none e = inr (g, rw (e, end_one_client) refl, (v, few))
      one (some c) e =
          Ends-eq g0 (end_one_client delete_client i g) (delete_client i g) (IsFew m)
            (rw (e, end_one_client) refl)
            (Ends-map g g0 (delete_client i g) (ClientEnded i g) (IsFew m) (λ q. quits)
              (λ g' p. (p.0.sound, omega (arith, p.0.fewer, few)))
              (deletes i g v few (λ q. absurd (omega (arith, q)))))

  -- It ends the server, without a fault on the way.
  pub clean_quit_lem : (g : Server) → IsFew m g → clean_quit delete_stream delete_client g ≡ exited
  unfolding clean_quit
  clean_quit_lem g few = streams (
      each_lem (end_one_stream delete_stream) 64 g0 (IsFew m) end_one_stream_lem 0 64 g
        (omega arith) few)
    where
      clients :
          (g1 : Server)
          → each (end_one_stream delete_stream) 0 64 g ≡ done g1
          → Ends g0 (each (end_one_client delete_client) 0 64 g1) (IsFew m)
          → clean_quit delete_stream delete_client g ≡ exited
      clients g1 x (inl (y, q)) = rw (clean_quit, x, and_then, y) refl
      clients g1 x (inr (g2, y, f)) = rw (clean_quit, x, and_then, y) refl

      streams :
          Ends g0 (each (end_one_stream delete_stream) 0 64 g) (IsFew m)
          → clean_quit delete_stream delete_client g ≡ exited
      streams (inl (x, q)) = rw (clean_quit, x, and_then) refl
      streams (inr (g1, x, f)) = clients g1 x (
          each_lem (end_one_client delete_client) 64 g0 (IsFew m) end_one_client_lem 0 64 g1
            (omega arith) f)

module _ (m : ℕ) (delete_stream delete_client : ℕ → Server → Run Server)
    (ends : DeletesStreams m delete_stream) (deletes : DeletesClients m delete_client) where
  -- The stream `id`, that was open in `g`, is freed in `g'`.
  pub free_stream_lem :
      (g : Server) (v : IsSound g) (id : ℕ) (s s' : Stream) (g' : Server)
      → get_elem? g.streams id ≡ some (some s)
      → s.state ≢ closing
      → Kept g g'
      → count_open g'.streams ≤ m
      → get_elem? g'.streams id ≡ some (some s')
      → Ends g (free_stream delete_stream delete_client id g') (λ h. Kept g h × IsGone h id)
  unfolding free_stream
  free_stream_lem g v id s s' g' there runs p few there' =
      elim (Bool-cases (s'.primary && g'.alive)) [
        | inr other ↦ inr (
          put_stream g' id none,
          rw (there', free_stream, other) refl,
          (freed-Kept g v id s there runs g' s' p there', self_new g' p.sound id s' there' none),
        )
        | inl primary ↦
            let may : MayQuit g' = (ground arith, id, s', there', ground arith) in
            let q = freed-Kept g v id s there runs g' s' p there' in
            let gone = put_stream g' id none in
            let last : Server = record gone { alive = false } in
            let quit =
              clean_quit_lem m delete_stream delete_client ends deletes g (p.main may) last (
                record {
                  clients = q.sound.clients;
                  streams = q.sound.streams;
                  owners = q.sound.owners;
                  slots = q.sound.slots;
                },
                omega (arith, count_open-set g'.streams id (some s') none there', few),
              ) in
            inl (rw (there', free_stream, primary) quit, p.main may)
      ]
