-- ===== src/Lifecycle/Newborn.antt =====
-- streams_new and streams_delete (roard/streams.c): a new stream that is deleted again.
use roaraudio.Prelude.{
  ℕ, zero, suc, ◌+◌, ◌^◌, ◌≤◌, ◌<◌, ◌≡◌, ◌≢◌, inl, inr, refl, sym, ◌∙◌, ap, true, false, Option,
  none, some, List, [], ◌∷◌, get_elem?, set, length, length-set, arith, Bool-cases, ◌==◌,
  if◌then◌else◌, ==-self, ==-ne,
}
use roaraudio.Prelude.Places.{get_elem?-set, get_elem?-inside}
use roaraudio.Memory.{add_size, sub_size}
use roaraudio.Meta.{and_then, Run, done}
use roaraudio.Client.{Stream, Server, free_place}
use roaraudio.Client.Slots.{free_place-first}
use roaraudio.Client.Move.{stream_at_lem}
use roaraudio.Lifecycle.{
  end_stream, part_stream, finish_stream, closing, put_stream, new_stream, streams_new, each,
  shut_down, end_related, free_stream, streams_delete, clients_delete,
}
use roaraudio.Lifecycle.Kept.{some_eq}
use roaraudio.Lifecycle.Ends.{get_elem?-there}
use roaraudio.Lifecycle.Deletes.{open_stream}

each-same :
    (step : ℕ → Server → Run Server) (limit i n : ℕ) (g : Server)
    → ((j : ℕ) → j < limit → step j g ≡ done g)
    → i + n ≤ limit
    → each step i n g ≡ done g
unfolding each
each-same step limit i zero g same h = refl
each-same step limit i (suc n) g same h =
    rw (same i (omega arith)) (each-same step limit (i + 1) n g same (omega arith))

set_back {ℓ} :
    {A : Type ℓ} (xs : List A) (i : ℕ) (a b c : A)
    → get_elem? xs i ≡ some c
    → set (set (set xs i a) i b) i c ≡ xs
set_back [] i a b c h = absurd (ground arith)
set_back (x ∷ xs) zero a b c h = let e : x ≡ c = ground arith in rw e refl
set_back (x ∷ xs) (suc i) a b c h = ap (λ ys. x ∷ ys) (set_back xs i a b c h)

alone :
    (delete : ℕ → Server → Run Server) (id j : ℕ) (g : Server)
    → j < length g.streams
    → ((s : Stream) → get_elem? g.streams j ≡ some (some s) → s.pos_rel_id ≢ id)
    → end_related delete id j g ≡ done g
alone delete id j g h other = let p = get_elem?-there g.streams j h in related (p.0) (p.1)
  where
    related :
        (p : Option Stream) → get_elem? g.streams j ≡ some p → end_related delete id j g ≡ done g
    related none e = rw (e, end_related) refl
    related (some s) e =
        let n : (s.pos_rel_id == id) ≡ false = ==-ne s.pos_rel_id id (other s e) in
        rw (e, end_related, n) refl

counter_back : (n : ℕ) → n < 2 ^ 64 → sub_size (add_size n 1) 1 ≡ n
counter_back n h = ground arith

module _ (fuel i : ℕ) (g : Server) (size : length g.streams ≡ 64)
    (small : g.stream_counter < 2 ^ 64) (free : get_elem? g.streams i ≡ some none)
    (others : (j : ℕ) (s : Stream) → get_elem? g.streams j ≡ some (some s) → s.pos_rel_id ≢ i) where
  inside : i < 64
  inside = omega (arith, get_elem?-inside g.streams i none free, size)

  -- The server with the new stream, and with that stream closing.
  abbrev with_new : Server
  with_new = record (put_stream g i (some new_stream)) {
    stream_counter = add_size g.stream_counter 1;
    stream_sum = add_size g.stream_sum 1;
  }

  abbrev with_closing : Server
  with_closing = shut_down with_new i new_stream

  abbrev closing_new : Stream
  closing_new = record new_stream { state = closing; recsource = false }

  new_there : get_elem? with_new.streams i ≡ some (some new_stream)
  new_there =
      get_elem?-set g.streams i i (some new_stream) (omega (arith, inside, size))
      ∙ rw (==-self i) refl

  closing_size : length with_closing.streams ≡ 64
  closing_size =
      length-set with_new.streams i (some closing_new)
      ∙ (length-set g.streams i (some new_stream) ∙ size)

  closing_at :
      (j : ℕ)
      → get_elem? with_closing.streams j
        ≡ (if i == j then some (some closing_new) else get_elem? with_new.streams j)
  closing_at j =
      get_elem?-set with_new.streams i j (some closing_new)
        (omega (arith, get_elem?-inside with_new.streams i (some new_stream) new_there))

  closing_others :
      (j : ℕ) (s : Stream) → get_elem? with_closing.streams j ≡ some (some s) → s.pos_rel_id ≢ i
  closing_others j s e = elim (Bool-cases (i == j)) [
    | inl same ↦
        let q : closing_new ≡ s = some_eq (some_eq (sym (closing_at j ∙ rw same refl) ∙ e)) in
        rw (← q) (λ z. omega (arith, z, inside))
    | inr other ↦
        let q : get_elem? with_new.streams j ≡ some (some s) =
          sym (closing_at j ∙ rw other refl) ∙ e in
        let r =
          get_elem?-set g.streams i j (some new_stream) (omega (arith, inside, size))
          ∙ rw other refl in
        others j s (sym r ∙ q)
  ]

  closing_there : get_elem? with_closing.streams i ≡ some (some closing_new)
  closing_there = closing_at i ∙ rw (==-self i) refl

  module _ (delete_stream delete_client : ℕ → Server → Run Server) where
    loop_lem : each (end_related delete_stream i) 0 64 with_closing ≡ done with_closing
    loop_lem =
        each-same (end_related delete_stream i) 64 0 64 with_closing
          (λ j h.
            alone delete_stream i j with_closing (omega (arith, h, closing_size))
              (closing_others j))
          (omega arith)

    end_lem :
        end_stream delete_stream delete_client i new_stream with_new
        ≡ done (put_stream with_closing i none)
    unfolding end_stream part_stream finish_stream free_stream
    end_lem =
        rw (end_stream, loop_lem, and_then, part_stream, closing_there)
          (rw (finish_stream, closing_there, and_then) (rw (free_stream, closing_there) refl))

  deleted :
      streams_delete (suc fuel) i with_new
      ≡ done (record g { stream_sum = add_size g.stream_sum 1 })
  deleted =
      open_stream fuel i with_new new_stream
        (stream_at_lem with_new i (some new_stream) inside new_there) refl
      ∙ end_lem (streams_delete fuel) (clients_delete fuel)
      ∙ rw
          (
            set_back g.streams i (some new_stream) (some closing_new) none free,
            counter_back g.stream_counter small,
          )
          refl

-- On a table of 64 places with a free one, on a server that accepts streams and has memory, and whose
-- counter of streams is a size_t: `streams_new` takes the first free place, and `streams_delete` of it,
-- if no stream is related to that place, then leaves the server as it was, the tables and the counter;
-- only the sum of all streams that there were has grown.
pub streams_delete-streams_new :
    (fuel i : ℕ) (g : Server)
    → length g.streams ≡ 64
    → g.stream_counter < 2 ^ 64
    → free_place g.streams ≡ some i
    → ((j : ℕ) (s : Stream) → get_elem? g.streams j ≡ some (some s) → s.pos_rel_id ≢ i)
    → ((streams_new true true g).0 ≡ i)
      × (streams_delete (suc fuel) i (streams_new true true g).1
          ≡ done (record g { stream_sum = add_size g.stream_sum 1 }))
unfolding streams_new
streams_delete-streams_new fuel i g size small place others = (
  rw place refl,
  rw place (deleted fuel i g size small (free_place-first g.streams i place) others),
)
