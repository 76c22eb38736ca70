-- ===== src/Meta/Finalize/Update.antt =====
-- stream_meta_finalize of roard/meta.c on a whole table of streams.
use roaraudio.Prelude.{
  ℕ, zero, suc, ◌+◌, ◌<◌, ◌≡◌, refl, sym, ◌∙◌, ap, ap₂, inl, inr, Bool, true, false, Option, none,
  some, List, [], ◌∷◌, ◌++◌, map, ◌==◌, ltb, ◌&&◌, length, arith, Bool-cases, get_elem?, set,
  length-append,
}
use mathlib.Core.Path.{subst}
use mathlib.Core.List.{append-nil, append_assoc}
use roaraudio.Status.{ok}
use roaraudio.Meta.{type_none, streams_max, Slots, Stream, Table, done, stream_at, meta_clear}
use roaraudio.Meta.Slots.{IsMeta}
use roaraudio.Meta.Table.{inside, meta_clear-at}
use roaraudio.Meta.Keep.{AllMeta, AllMeta-at}
use roaraudio.Meta.Finalize.{
  is_input, has_meta, get_flag_meta, copy_streams, update_streams, meta_finalize,
}
use roaraudio.Meta.Finalize.Gather.{
  gives, takes, gather, OneWay, refresh, outputs, stream_at-place, copy_streams-gather,
}
use roaraudio.Meta.Finalize.Packed.{live, packed, clear_slots-packed, with_entries, filled}

live-IsMeta : (xs : Slots) → IsMeta xs → IsMeta (live xs)
live-IsMeta [] v = tt
live-IsMeta (x ∷ xs) v = elim (Bool-cases (x.kind == type_none)) [
  | inl e ↦ rw e (live-IsMeta xs v.1)
  | inr e ↦ rw e (v.0, live-IsMeta xs v.1)
]

append-IsMeta : (xs ys : Slots) → IsMeta xs → IsMeta ys → IsMeta (xs ++ ys)
append-IsMeta [] ys v w = w
append-IsMeta (x ∷ xs) ys v w = (v.0, append-IsMeta xs ys v.1 w)

packed-IsMeta : (n : ℕ) (es : Slots) → IsMeta es → IsMeta (packed n es)
packed-IsMeta zero es v = tt
packed-IsMeta (suc n) [] v =
    ((λ some_kind. absurd (some_kind refl), omega arith), packed-IsMeta n [] tt)
packed-IsMeta (suc n) (e ∷ es) v = (v.0, packed-IsMeta n es v.1)

length-packed : (n : ℕ) (es : Slots) → length (packed n es) ≡ n
length-packed zero es = refl
length-packed (suc n) [] = ap suc (length-packed n [])
length-packed (suc n) (e ∷ es) = ap suc (length-packed n es)

-- What holds of all that is gathered.
gather-IsMeta : (g : Table) → AllMeta g → IsMeta (gather g)
gather-IsMeta [] v = tt
gather-IsMeta (none ∷ g) v = gather-IsMeta g v
gather-IsMeta (some s ∷ g) v = elim (Bool-cases (gives s)) [
  | inl e ↦
      rw e
        (append-IsMeta (live s.slots) (gather g) (live-IsMeta s.slots v.0.1) (gather-IsMeta g v.1))
  | inr e ↦ rw e (gather-IsMeta g v.1)
]

-- An update of an output changes nothing of what is gathered.
gather-refresh :
    (a rest : Table) (s : Stream) (es : Slots)
    → gives s ≡ false
    → gather (a ++ (some (with_entries s es) ∷ rest)) ≡ gather (a ++ (some s ∷ rest))
gather-refresh [] rest s es h = rw h
gather-refresh (none ∷ a) rest s es h = gather-refresh a rest s es h
gather-refresh (some t ∷ a) rest s es h = rw (gather-refresh a rest s es h)

refresh-AllMeta :
    (a rest : Table) (s : Stream) (es : Slots)
    → IsMeta es
    → AllMeta (a ++ (some s ∷ rest))
    → AllMeta (a ++ (some (with_entries s es) ∷ rest))
refresh-AllMeta [] rest s es m v = ((length-packed 16 es, packed-IsMeta 16 es m), v.1)
refresh-AllMeta (none ∷ a) rest s es m v = refresh-AllMeta a rest s es m v
refresh-AllMeta (some t ∷ a) rest s es m v = (v.0, refresh-AllMeta a rest s es m v.1)

get_elem?-middle :
    (a rest : Table) (p : Option Stream) → get_elem? (a ++ (p ∷ rest)) (length a) ≡ some p
get_elem?-middle [] rest p = refl
get_elem?-middle (q ∷ a) rest p = get_elem?-middle a rest p

set-middle :
    (a rest : Table) (p q : Option Stream) → set (a ++ (p ∷ rest)) (length a) q ≡ a ++ (q ∷ rest)
set-middle [] rest p q = refl
set-middle (r ∷ a) rest p q = ap (λ t. r ∷ t) (set-middle a rest p q)

length-middle :
    (a rest : Table) (p : Option Stream) → length (a ++ (p ∷ rest)) ≡ length a + suc (length rest)
length-middle a rest p = length-append a (p ∷ rest)

-- One round of the outer loop, at an output stream that is no input.
round :
    (a rest : Table) (s : Stream)
    → AllMeta (a ++ (some s ∷ rest))
    → length (a ++ (some s ∷ rest)) ≡ streams_max
    → gives s ≡ false
    → let t = a ++ (some s ∷ rest) in
      (c : Table) × (meta_clear (length a) t ≡ done (ok, c))
      × (copy_streams true (length a) streams_max 0 c
          ≡ done (a ++ (some (with_entries s (gather t)) ∷ rest)))
round a rest s v size no_gv =
    let t = a ++ (some s ∷ rest) in
    let at = get_elem?-middle a rest (some s) in
    let room : length a < length t = omega (arith, length-middle a rest (some s)) in
    let sizes = AllMeta-at t (length a) s v at in
    (
      filled t (length a) s room [],
      meta_clear-at t (length a) s at (omega arith)
          ∙ ap (λ xs. done (ok, set t (length a) (some (record s { slots = xs }))))
              (clear_slots-packed s.slots ∙ ap (λ n. packed n []) sizes.0),
      ap (λ n. copy_streams true (length a) n 0 (filled t (length a) s room [])) (sym size)
          ∙ copy_streams-gather t (length a) s room at no_gv t [] 0
              (λ j. ap (get_elem? t) (omega arith)) tt v
          ∙ ap (λ u. done u) (set-middle a rest (some s) (some (with_entries s (gather t)))),
    )

-- A stream that has been dealt with moves to the front part.
step :
    (rest a t : Table) (p : Option Stream) (es : Slots) (asked : List ℕ)
    → update_streams true (length rest) (length (a ++ (p ∷ []))) t asked
      ≡ done
          ((a ++ (p ∷ [])) ++ map (refresh es) rest, asked ++ outputs (length (a ++ (p ∷ []))) rest)
    → update_streams true (length rest) (length a + 1) t asked
      ≡ done (a ++ (p ∷ map (refresh es) rest), asked ++ outputs (length a + 1) rest)
step rest a t p es asked h =
    let n : length (a ++ (p ∷ [])) ≡ length a + 1 = length-append a (p ∷ []) in
    ap (λ k. update_streams true (length rest) k t asked) (sym n)
    ∙ h
    ∙ ap₂ (λ u k. done (u, asked ++ outputs k rest))
        (append_assoc a (p ∷ []) (map (refresh es) rest)) n

-- The outer loop from number `length a` on, `rest` being the streams that are left.
update_streams-refresh :
    (rest a t : Table) (es : Slots) (asked : List ℕ)
    → t ≡ a ++ rest
    → AllMeta t
    → length t ≡ streams_max
    → OneWay rest
    → gather t ≡ es
    → update_streams true (length rest) (length a) t asked
      ≡ done (a ++ map (refresh es) rest, asked ++ outputs (length a) rest)
unfolding update_streams
update_streams-refresh [] a t es asked e v size w same =
    ap₂ (λ u l. done (u, l)) e (sym (append-nil asked))
update_streams-refresh (none ∷ rest) a t es asked e v size w same =
    let at : stream_at t (length a) ≡ done none =
      stream_at-place t (length a) none
        (ap (λ u. get_elem? u (length a)) e ∙ get_elem?-middle a rest none) in
    rw at (
      step rest a t none es asked (
        update_streams-refresh rest (a ++ (none ∷ [])) t es asked
          (e ∙ sym (append_assoc a (none ∷ []) rest)) v size w same))
update_streams-refresh (some s ∷ rest) a t es asked e v size w same =
    let at : stream_at t (length a) ≡ done (some s) =
      stream_at-place t (length a) (some s)
        (ap (λ u. get_elem? u (length a)) e ∙ get_elem?-middle a rest (some s)) in
    elim (Bool-cases (takes s)) [
      | inr no_out ↦
          rw (at, no_out)
            (step rest a t (some s) es asked (
              update_streams-refresh rest (a ++ (some s ∷ [])) t es asked
                (e ∙ sym (append_assoc a (some s ∷ []) rest)) v size w.1 same))
      | inl is_out ↦
          let t' = a ++ (some s ∷ rest) in
          let p = some (with_entries s es) in
          let v' : AllMeta t' = subst AllMeta e v in
          let size' : length t' ≡ streams_max = ap length (sym e) ∙ size in
          let same' : gather t' ≡ es = ap gather (sym e) ∙ same in
          let r = round a rest s v' size' (w.0 is_out) in
          let told = asked ++ (length a ∷ []) in
          rw (at, is_out, e, r.1, r.2)
            (ap
                (λ l.
                  update_streams true (length rest) (length a + 1)
                    (a ++ (some (with_entries s l) ∷ rest)) told)
                same'
              ∙ step rest a (a ++ (p ∷ rest)) p es told (
                  update_streams-refresh rest (a ++ (p ∷ [])) (a ++ (p ∷ rest)) es told
                    (sym (append_assoc a (p ∷ []) rest))
                    (refresh-AllMeta a rest s es (subst IsMeta same' (gather-IsMeta t' v')) v')
                    (length-middle a rest p ∙ sym (length-middle a rest (some s)) ∙ size') w.1
                    (gather-refresh a rest s es (w.0 is_out) ∙ same'))
              ∙ ap (λ l. done (a ++ (p ∷ map (refresh es) rest), l))
                  (append_assoc asked (length a ∷ []) (outputs (length a + 1) rest)))
    ]

update_streams-all :
    (g : Table)
    → AllMeta g
    → length g ≡ streams_max
    → OneWay g
    → update_streams true streams_max 0 g [] ≡ done (map (refresh (gather g)) g, outputs 0 g)
update_streams-all g v size w =
    subst (λ n. update_streams true n 0 g [] ≡ done (map (refresh (gather g)) g, outputs 0 g)) size
      (update_streams-refresh g [] g (gather g) [] refl v size w refl)

&&_both : (a b : Bool) → (a && b) ≡ true → (a ≡ true) × (b ≡ true)
&&_both true b h = (refl, h)
&&_both false b h = cc

-- `stream_meta_finalize` of an input stream with ROAR_FLAG_META, in a table of ROAR_STREAMS_MAX
-- streams of which none with that flag is both an input and an output: every output stream with the
-- flag then has as its slots the first sixteen slots in use of all input streams with the flag, in
-- the order of the table, and free slots behind them; no other stream is changed; and the codec
-- filter of each of these output streams is asked for an update, once and in order. It is supposed
-- that `strdup` succeeds, that each stream has sixteen slots, and that a slot in use has its value.
pub meta_finalize-gather :
    (g : Table) (id : ℕ) (s : Stream)
    → AllMeta g
    → length g ≡ streams_max
    → OneWay g
    → get_elem? g id ≡ some (some s)
    → gives s ≡ true
    → meta_finalize true id g ≡ done (map (refresh (gather g)) g, outputs 0 g)
unfolding meta_finalize get_flag_meta
meta_finalize-gather g id s v size w at input =
    let i = &&_both (is_input s.dir) (has_meta s) input in
    let there : ltb streams_max id ≡ false = ground (arith, inside g id (some s) at) in
    rw (there, stream_at-place g id (some s) at, i.1, i.0) (update_streams-all g v size w)
