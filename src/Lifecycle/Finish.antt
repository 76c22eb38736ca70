-- ===== src/Lifecycle/Finish.antt =====
-- A stream and a client that end: their loops, and the place that is NULL afterwards
-- (streams_delete of roard/streams.c, clients_delete of roard/clients.c).
use roaraudio.Prelude.{
  ℕ, suc, ◌≤◌, ◌<◌, ◌≡◌, ◌≢◌, inl, inr, refl, sym, ◌∙◌, ap, false, none, some, List, [], ◌∷◌, ◌++◌,
  get_elem?, if◌then◌else◌, set, length, length-set, arith, Bool-cases, ◌==◌, ◌&&◌, not, ==-self,
  ==-ne,
}
use roaraudio.Prelude.Places.{get_elem?-set, get_elem?-inside}
use roaraudio.Meta.{Run, and_then}
use roaraudio.Client.{Client, Stream, Server, minus_one, put}
use roaraudio.Lifecycle.{
  closing, put_stream, each, shut_down, end_related, end_owned, one_thru_less, leave_client,
  free_stream, tell_parent, finish_stream, part_stream, end_stream, shut_client, close_client,
  end_client,
}
use roaraudio.Lifecycle.Open.{count_open, count_open-set, open_in}
use roaraudio.Lifecycle.Kept.{
  IsSound, IsGone, IsClosing, IsIdle, KeptBut, Kept, same-Kept, Kept-trans, but-Kept, put-Kept,
  client-Kept, self_new, set_cases,
}
use roaraudio.Lifecycle.Ends.{
  Ends, Ends-eq, Ends-map, Ends-then, DeletesStreams, DeletesClients, each_lem, related_lem,
  owned_lem,
}
use roaraudio.Lifecycle.Leave.{leave_client-Left}
use roaraudio.Lifecycle.Quit.{free_stream_lem}
use roaraudio.Lifecycle.Parent.{tell_parent_lem}

module _ (g : Server) (v : IsSound g) (id : ℕ) (s : Stream)
    (there : get_elem? g.streams id ≡ some (some s)) (runs : s.state ≢ closing) where
  shut_down-Kept : Kept g (shut_down g id s)
  shut_down-Kept =
      let s' : Stream = record s { state = closing; recsource = false } in
      let p : Kept g (put_stream g id (some s')) =
        put-Kept g v id s there s' (v.owners id s there) refl (omega arith) (λ e. refl) in
      Kept-trans p
        (same-Kept 64 (put_stream g id (some s')) (shut_down g id s) p.sound refl refl refl)

  is_shut : IsClosing (shut_down g id s) id
  is_shut =
      let s' : Stream = record s { state = closing; recsource = false } in
      (s', self_new g v id s there (some s'), refl)

  -- One stream less is open.
  open_less : (m : ℕ) → count_open g.streams ≤ suc m → count_open (shut_down g id s).streams ≤ m
  open_less m few =
      let s' : Stream = record s { state = closing; recsource = false } in
      let n : (s.state == closing) ≡ false = ==-ne s.state closing runs in
      let one : open_in (some s) ≡ 1 = rw n refl in
      omega (arith, count_open-set g.streams id (some s) (some s') there, one, few)

one_thru_less-Kept : (s : Stream) (g : Server) → IsSound g → Kept g (one_thru_less s g)
one_thru_less-Kept s g v = elim (Bool-cases (s.dir == 10)) [
  | inl thru ↦ same-Kept 64 g (one_thru_less s g) v (rw thru refl) (rw thru refl) (rw thru refl)
  | inr other ↦ same-Kept 64 g (one_thru_less s g) v (rw other refl) (rw other refl) (rw other refl)
]

streams-one_thru_less : (s : Stream) (g : Server) → (one_thru_less s g).streams ≡ g.streams
streams-one_thru_less s g = elim (Bool-cases (s.dir == 10)) [
  | inl thru ↦ rw thru refl
  | inr other ↦ rw other refl
]

module _ (g : Server) (v : IsSound g) (id : ℕ) (k : Client)
    (there : get_elem? g.clients id ≡ some (some k)) where
  in_clients : id < length g.clients
  in_clients = get_elem?-inside g.clients id (some k) there

  client_set : (k' : Client) → get_elem? (set g.clients id (some k')) id ≡ some (some k')
  client_set k' = get_elem?-set g.clients id id (some k') in_clients ∙ rw (==-self id) refl

  client_gone : get_elem? (set g.clients id none) id ≡ some none
  client_gone = get_elem?-set g.clients id id none in_clients ∙ rw (==-self id) refl

  -- The place of the client becomes NULL.
  closed-Kept :
      (closed : List ℕ)
      → KeptBut id g (record g { clients = set g.clients id none; closed = closed })
  closed-Kept closed = record {
    sound = record {
      clients = length-set g.clients id none ∙ v.clients;
      streams = v.streams;
      owners = v.owners;
      slots = λ j t e. elim (set_cases g.clients id j none (some t) in_clients e) [
        | inl (same, q) ↦ absurd (ground arith)
        | inr (other, q) ↦ v.slots j t q
      ];
    };
    fewer = omega arith;
    gone = λ j h. h;
    shut = λ j h. h;
    idle = λ j n h.
        let other : (id == j) ≡ false = ==-ne id j (λ e. n (sym e)) in
        (h.0, get_elem?-set g.clients id j none in_clients ∙ rw other (h.1), h.2);
    main = λ q. q;
  }

-- A stream that was open in `g` and is being closed in `h`, with at most `m` open streams.
abbrev Still : (m id : ℕ) → Server → Server → Type 0
Still m id g h = Kept g h × ((count_open h.streams ≤ m) × IsClosing h id)

Still-next : (m id : ℕ) (g h h' : Server) → Still m id g h → Kept h h' → Still m id g h'
Still-next m id g h h' (p, (few, c)) q =
    (Kept-trans p q, (omega (arith, q.fewer, few), q.shut id c))

-- A client that was there in `g` and has its streams ended in `h`.
abbrev Emptied : (m id : ℕ) → Server → Server → Type 0
Emptied m id g h = Kept g h × ((count_open h.streams ≤ m) × IsIdle h id)

abbrev StreamGone : ℕ → Server → Server → Type 0
StreamGone id g h = Kept g h × IsGone h id

abbrev pub ClientGone : ℕ → Server → Server → Type 0
ClientGone id g h = KeptBut id g h × (get_elem? h.clients id ≡ some none)

module _ (m : ℕ) (delete_stream delete_client : ℕ → Server → Run Server)
    (ends : DeletesStreams m delete_stream) where
  module _ (deletes : DeletesClients m delete_client) (g : Server) (v : IsSound g) (id : ℕ)
      (s : Stream) (there : get_elem? g.streams id ≡ some (some s)) (runs : s.state ≢ closing) where
    in_streams : id < 64
    in_streams = omega (arith, get_elem?-inside g.streams id (some s) there, v.streams)

    finish_lem :
        (h : Server)
        → Still m id g h
        → Ends g (finish_stream delete_stream delete_client id h) (StreamGone id g)
    unfolding finish_stream
    finish_lem h (p, (few, (s3, at, z))) =
        let leave =
          Ends-map h g (leave_client delete_client id s3.client h) (Kept h) (Still m id g) p.main
            (λ h' q. Still-next m id g h h' (p, (few, (s3, at, z))) q)
            (leave_client-Left m delete_client deletes id in_streams h p.sound few s3.client
              ((p.sound.owners id s3 at).0)) in
        Ends-eq g (finish_stream delete_stream delete_client id h)
          (and_then (leave_client delete_client id s3.client h)
            (free_stream delete_stream delete_client id))
          (StreamGone id g) (rw (at, finish_stream) refl)
          (Ends-then g (leave_client delete_client id s3.client h)
            (free_stream delete_stream delete_client id) (Still m id g) (StreamGone id g) leave
            (λ h' q.
              free_stream_lem m delete_stream delete_client ends deletes g v id s (q.1.1.0) h' there
                runs (q.0) (q.1.0) (q.1.1.1)))

    part_lem :
        (h : Server)
        → Still m id g h
        → Ends g (part_stream delete_stream delete_client id h) (StreamGone id g)
    unfolding part_stream
    part_lem h (p, (few, (s2, at, z))) =
        let h' = one_thru_less s2 h in
        let same = streams-one_thru_less s2 h in
        let k = one_thru_less-Kept s2 h p.sound in
        let at' : get_elem? h'.streams id ≡ some (some s2) = ap (λ l. get_elem? l id) same ∙ at in
        let q : Still m id g h' = Still-next m id g h h' (p, (few, (s2, at, z))) k in
        let tell =
          Ends-map h' g (tell_parent delete_stream id s2 h') (Kept h') (Still m id g) (q.0.main)
            (λ h2 r. Still-next m id g h' h2 q r)
            (tell_parent_lem m delete_stream ends id s2 h' (k.sound) (q.1.0) at' z) in
        Ends-eq g (part_stream delete_stream delete_client id h)
          (and_then (tell_parent delete_stream id s2 h')
            (finish_stream delete_stream delete_client id))
          (StreamGone id g) (rw (at, part_stream) refl)
          (Ends-then g (tell_parent delete_stream id s2 h')
            (finish_stream delete_stream delete_client id) (Still m id g) (StreamGone id g) tell
            finish_lem)

    pub end_stream_lem :
        count_open g.streams ≤ suc m
        → Ends g (end_stream delete_stream delete_client id s g) (λ h. Kept g h × IsGone h id)
    unfolding end_stream
    end_stream_lem few =
        let start : Still m id g (shut_down g id s) = (
          shut_down-Kept g v id s there runs,
          (open_less g v id s there runs m few, is_shut g v id s there runs),
        ) in
        let loop =
          each_lem (end_related delete_stream id) 64 g (Still m id g)
            (λ i h inside q.
              Ends-map h g (end_related delete_stream id i h) (Kept h) (Still m id g) (q.0.main)
                (λ h' r. Still-next m id g h h' q r)
                (related_lem m delete_stream ends id i h inside (q.0.sound) (q.1.0)))
            0 64 (shut_down g id s) (omega arith) start in
        Ends-then g (each (end_related delete_stream id) 0 64 (shut_down g id s))
          (part_stream delete_stream delete_client id) (Still m id g) (StreamGone id g) loop
          part_lem

  module _ (g : Server) (v : IsSound g) (id : ℕ) (k : Client)
      (there : get_elem? g.clients id ≡ some (some k)) (small : id < 64) where
    close_lem : (h : Server) → Emptied m id g h → Ends g (close_client id k h) (ClientGone id g)
    close_lem h (p, (few, (k', at, z))) =
        let closed =
          (if not (k'.fh == minus_one) && (k.execed == minus_one)
            then h.closed ++ (k'.fh ∷ [])
            else h.closed) in
        inr (
          record h { clients = set h.clients id none; closed = closed },
          rw (at, close_client) refl,
          (
            Kept-trans (but-Kept v p) (closed-Kept h p.sound id k' at closed),
            client_gone h p.sound id k' at,
          ),
        )

    pub end_client_lem :
        count_open g.streams ≤ m → Ends g (end_client delete_stream id k g) (ClientGone id g)
    unfolding end_client
    end_client_lem few =
        let k1 : Client = record k { waits = none; execed = minus_one } in
        let own = v.slots id k there in
        let p = client-Kept g v id k k1 there (own.0) (own.1) (λ e. refl) in
        let start : Emptied m id g (shut_client g id k) = (
          Kept-trans p (same-Kept 64 (put g id k1) (shut_client g id k) p.sound refl refl refl),
          (few, (k1, client_set g v id k there k1, refl)),
        ) in
        let loop =
          each_lem (end_owned delete_stream id) 12 g (Emptied m id g)
            (λ i h inside q.
              Ends-map h g (end_owned delete_stream id i h) (Kept h) (Emptied m id g) (q.0.main)
                (λ h' r. (
                  Kept-trans (q.0) r,
                  (
                    omega (arith, r.fewer, q.1.0),
                    r.idle id (λ e. absurd (omega (arith, e, small))) (q.1.1),
                  ),
                ))
                (owned_lem m delete_stream ends id i h inside (q.0.sound) (q.1.0) (q.1.1)))
            0 12 (shut_client g id k) (omega arith) start in
        Ends-then g (each (end_owned delete_stream id) 0 12 (shut_client g id k))
          (close_client id k) (Emptied m id g) (ClientGone id g) loop close_lem
