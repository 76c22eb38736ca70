-- ===== src/Lifecycle/Parent.antt =====
-- A virtual stream that ends tells its parent stream, whose codec filter may delete it
-- (streams_delete in roard/streams.c).
use roaraudio.Prelude.{
  ℕ, ◌≤◌, ◌<◌, ◌≡◌, ◌≢◌, inl, inr, refl, true, Option, none, some, get_elem?, arith, Bool-cases,
  ◌==◌, ◌&&◌, not, ltb,
}
use roaraudio.Prelude.Places.{get_elem?-inside}
use roaraudio.Status.{ok}
use roaraudio.Meta.{Run, done, and_then}
use roaraudio.Client.{Stream, Server, minus_one, streams_max, stream_at, streams_set_client}
use roaraudio.Client.Move.{stream_at_lem}
use roaraudio.Lifecycle.{
  closing, put_stream, virtual_delete, ungroup, set_parent, regroup, tell_parent,
}
use roaraudio.Lifecycle.Open.{count_open}
use roaraudio.Lifecycle.Kept.{IsSound, Kept, Kept-trans, put-Kept, self_new}
use roaraudio.Lifecycle.Ends.{
  Ends, Ends-map, Ends-eq, Ends-then, DeletesStreams, delete_stream-Kept, refl-Kept,
  get_elem?-there,
}

pub stream_at_above : (g : Server) (s : ℕ) → streams_max < s → stream_at g s ≡ done none
unfolding stream_at
stream_at_above g s h = let above : ltb streams_max s ≡ true = ground arith in rw above refl

set_client_run :
    (g : Server) (id client : ℕ) (s : Stream)
    → id < 64
    → get_elem? g.streams id ≡ some (some s)
    → streams_set_client id client g
      ≡ done (ok, put_stream g id (some (record s { client = client })))
unfolding streams_set_client
set_client_run g id client s h e = rw (stream_at_lem g id (some s) h e, and_then) refl

-- A closing stream with another owner and another parent.
module _ (g : Server) (v : IsSound g) (id : ℕ) (s : Stream)
    (there : get_elem? g.streams id ≡ some (some s)) (shut : s.state ≡ closing) where
  small : id < 64
  small = omega (arith, get_elem?-inside g.streams id (some s) there, v.streams)

  moved-Kept :
      (client parent : ℕ)
      → client ≢ 64
      → parent ≢ 64
      → Kept g (put_stream g id (some (record s { client = client; pos_rel_id = parent })))
  moved-Kept client parent h k =
      put-Kept g v id s there (record s { client = client; pos_rel_id = parent }) (h, k) refl
        (omega arith) (λ e. e)

  ungroup_lem : (g' : Server) × (ungroup id s g ≡ done g') × Kept g g'
  ungroup_lem =
      let t : Stream = record s { pos_rel_id = minus_one } in
      let u : Stream = record t { client = minus_one } in
      let p = moved-Kept s.client minus_one ((v.owners id s there).0) (λ q. omega (arith, q)) in
      let q =
        put-Kept (put_stream g id (some t)) p.sound id t (self_new g v id s there (some t)) u
          ((λ e. omega (arith, e)), (λ e. omega (arith, e))) refl (omega arith) (λ e. e) in
      (
        put_stream (put_stream g id (some t)) id (some u),
        rw
            (
              set_client_run (put_stream g id (some t)) id minus_one t small
                  (self_new g v id s there (some t)),
              ungroup,
            )
            refl,
        Kept-trans p q,
      )

-- The stream takes `client` and `parent` again.
regroup_lem :
    (g : Server) (v : IsSound g) (id : ℕ) (s t : Stream)
    → get_elem? g.streams id ≡ some (some t)
    → t.state ≡ closing
    → (s.client ≢ 64) × (s.pos_rel_id ≢ 64)
    → (g' : Server) × (regroup id s g ≡ done g') × Kept g g'
regroup_lem g v id s t there shut h =
    let u : Stream = record t { client = s.client } in
    let w : Stream = record u { pos_rel_id = s.pos_rel_id } in
    let p = put-Kept g v id t there u (h.0, (v.owners id t there).1) refl (omega arith) (λ e. e) in
    let at = self_new g v id t there (some u) in
    let q =
      put-Kept (put_stream g id (some u)) p.sound id u at w (h.0, h.1) refl (omega arith)
        (λ e. e) in
    (
      put_stream (put_stream g id (some u)) id (some w),
      rw
          (
            set_client_run g id s.client t (small g v id t there shut) there,
            regroup,
            and_then,
            set_parent,
            at,
          )
          refl,
      Kept-trans p q,
    )

module _ (m : ℕ) (delete_stream : ℕ → Server → Run Server)
    (ends : DeletesStreams m delete_stream) where
  virtual_delete_lem :
      (parent : ℕ) (g : Server)
      → parent ≢ 64
      → IsSound g
      → count_open g.streams ≤ m
      → Ends g (virtual_delete delete_stream parent g) (Kept g)
  virtual_delete_lem parent g n v few = elim (Bool-cases (ltb streams_max parent)) [
    | inl above ↦
        inr (g, rw (stream_at_above g parent (ground arith), virtual_delete) refl, refl-Kept 64 g v)
    | inr below ↦
        let inside : parent < 64 = ground arith in
        let p = get_elem?-there g.streams parent (omega (arith, v.streams)) in
        found inside (p.0) (p.1)
  ]
    where
      found :
          parent < 64
          → (p : Option Stream) → get_elem? g.streams parent ≡ some p
          → Ends g (virtual_delete delete_stream parent g) (Kept g)
      found inside none e =
          inr (g, rw (stream_at_lem g parent none inside e, virtual_delete) refl, refl-Kept 64 g v)
      found inside (some t) e = elim (Bool-cases (t.filter_deletes)) [
        | inr keeps ↦ inr (
          g,
          rw (stream_at_lem g parent (some t) inside e, virtual_delete, keeps) refl,
          refl-Kept 64 g v,
        )
        | inl deletes ↦
            delete_stream-Kept m delete_stream ends parent g (virtual_delete delete_stream parent g)
              v few n (rw (stream_at_lem g parent (some t) inside e, virtual_delete, deletes) refl)
      ]

  pub tell_parent_lem :
      (id : ℕ) (s : Stream) (g : Server)
      → IsSound g
      → count_open g.streams ≤ m
      → get_elem? g.streams id ≡ some (some s)
      → s.state ≡ closing
      → Ends g (tell_parent delete_stream id s g) (Kept g)
  tell_parent_lem id s g v few there shut =
      elim (Bool-cases (s.virtual && not (s.pos_rel_id == minus_one))) [
        | inr other ↦ inr (g, rw (tell_parent, other) refl, refl-Kept 64 g v)
        | inl virtual ↦
            let a = ungroup_lem g v id s there shut in
            let own = v.owners id s there in
            let b =
              virtual_delete_lem s.pos_rel_id (a.0) (own.1) a.2.sound
                (omega (arith, a.2.fewer, few)) in
            let c =
              Ends-map (a.0) g (virtual_delete delete_stream s.pos_rel_id (a.0)) (Kept (a.0))
                (Kept g) a.2.main (λ g' p. Kept-trans (a.2) p) b in
            let start =
              Ends-eq g (and_then (ungroup id s g) (virtual_delete delete_stream s.pos_rel_id))
                (virtual_delete delete_stream s.pos_rel_id (a.0)) (Kept g) (rw (a.1, and_then) refl)
                c in
            Ends-eq g (tell_parent delete_stream id s g)
              (and_then (and_then (ungroup id s g) (virtual_delete delete_stream s.pos_rel_id))
                (regroup id s))
              (Kept g) (rw (tell_parent, virtual) refl)
              (Ends-then g (and_then (ungroup id s g) (virtual_delete delete_stream s.pos_rel_id))
                (regroup id s) (Kept g) (Kept g) start
                (λ g' p.
                  let (t, at, z) = p.shut id (s, there, shut) in
                  let d = regroup_lem g' p.sound id s t at z own in
                  inr (d.0, d.1, Kept-trans p (d.2))))
      ]
