-- ===== src/Meta/Finalize/Gather.antt =====
-- What stream_meta_finalize of roard/meta.c leaves in a whole table of streams.
use roaraudio.Prelude.{
  ℕ, suc, ◌+◌, ◌<◌, ◌≡◌, ◌≢◌, sym, ◌∙◌, ap, inl, inr, Bool, true, false, Option, none, some, List,
  [], ◌∷◌, ◌++◌, ◌==◌, if◌then◌else◌, ◌&&◌, length, arith, Bool-cases, get_elem?, get_elem?-set_ne,
}
use native.Mathlib.Decide.{ℕ_discrete}
use mathlib.Core.Option.{some-injective}
use mathlib.Core.List.{append-nil, append_assoc}
use roaraudio.Meta.{type_none, Slots, Stream, Table, done, stream_at}
use roaraudio.Meta.Keep.{AllMeta}
use roaraudio.Meta.Finalize.{is_input, is_output, has_meta, copy_slots, copy_streams}
use roaraudio.Meta.Finalize.Packed.{
  live, AllLive, with_entries, filled, filled-at, copy_slots-filled,
}

abbrev pub gives : Stream → Bool
gives s = is_input s.dir && has_meta s

abbrev pub takes : Stream → Bool
takes s = is_output s.dir && has_meta s

-- the meta data of the input streams, in the order of the table
abbrev pub gather : Table → Slots
gather [] = []
gather (none ∷ g) = gather g
gather (some s ∷ g) = if gives s then live s.slots ++ gather g else gather g

-- No stream is both an input and an output of meta data.
abbrev pub OneWay : Table → Type 0
OneWay [] = Unit {0}
OneWay (none ∷ g) = OneWay g
OneWay (some s ∷ g) = (takes s ≡ true → gives s ≡ false) × OneWay g

-- An output stream that has taken the entries `es`.
abbrev pub refresh : Slots → Option Stream → Option Stream
refresh es none = none
refresh es (some s) = if takes s then some (with_entries s es) else some s

-- the output streams from number `co` on
abbrev pub outputs : ℕ → Table → List ℕ
outputs co [] = []
outputs co (none ∷ g) = outputs (co + 1) g
outputs co (some s ∷ g) = if takes s then co ∷ outputs (co + 1) g else outputs (co + 1) g

pub stream_at-place :
    (g : Table) (id : ℕ) (p : Option Stream) → get_elem? g id ≡ some p → stream_at g id ≡ done p
unfolding stream_at
stream_at-place g id p at = rw (at, stream_at)

live-AllLive : (xs : Slots) → AllLive (live xs)
live-AllLive [] = tt
live-AllLive (x ∷ xs) = elim (Bool-cases (x.kind == type_none)) [
  | inl e ↦ rw e (live-AllLive xs)
  | inr e ↦ rw e (ground arith, live-AllLive xs)
]

append-AllLive : (xs ys : Slots) → AllLive xs → AllLive ys → AllLive (xs ++ ys)
append-AllLive [] ys h k = k
append-AllLive (x ∷ xs) ys h k = (h.0, append-AllLive xs ys h.1 k)

-- `rest` is the table from number `ci` on.
abbrev pub From : Table → ℕ → Table → Type 0
From g ci rest = (j : ℕ) → get_elem? g (ci + j) ≡ get_elem? rest j

first :
    (g rest : Table) (ci : ℕ) (p : Option Stream) → From g ci (p ∷ rest) → get_elem? g ci ≡ some p
first g rest ci p same = ap (get_elem? g) (omega arith) ∙ same 0

next_same :
    (g rest : Table) (ci : ℕ) (p : Option Stream) → From g ci (p ∷ rest) → From g (ci + 1) rest
next_same g rest ci p same j = ap (get_elem? g) (omega arith) ∙ same (suc j)

apart :
    (g : Table) {s : Stream} {ci co : ℕ}
    → ci ≡ co
    → get_elem? g co ≡ some (some s)
    → get_elem? g ci ≢ some none
apart g e at none_there = cc

-- The inner loop, for a stream `co` that is no input.
module _ (g : Table) (co : ℕ) (s : Stream) (room : co < length g)
    (at : get_elem? g co ≡ some (some s)) (out : gives s ≡ false) where
  elsewhere :
      (es : Slots) (ci : ℕ) (p : Option Stream)
      → ci ≢ co
      → get_elem? g ci ≡ some p
      → stream_at (filled g co s room es) ci ≡ done p
  elsewhere es ci p h e =
      stream_at-place (filled g co s room es) ci p
        (get_elem?-set_ne g (some (with_entries s es)) (λ q. h (sym q)) ∙ e)

  pub copy_streams-gather :
      (rest : Table) (es : Slots) (ci : ℕ)
      → From g ci rest
      → AllLive es
      → AllMeta rest
      → copy_streams true co (length rest) ci (filled g co s room es)
        ≡ done (filled g co s room (es ++ gather rest))
  unfolding copy_streams
  copy_streams-gather [] es ci same all v = rw append-nil
  copy_streams-gather (none ∷ rest) es ci same all v =
      let here : get_elem? g ci ≡ some none = first g rest ci none same in
      rw (elsewhere es ci none (λ e. apart g e at here) here)
        (copy_streams-gather rest es (ci + 1) (next_same g rest ci none same) all v)
  copy_streams-gather (some t ∷ rest) es ci same all v =
      let here : get_elem? g ci ≡ some (some t) = first g rest ci (some t) same in
      elim (ℕ_discrete ci co) [
        | yes e ↦
            let t_s : t ≡ s =
              some-injective t s
                (some-injective (some t) (some s) (sym here ∙ ap (get_elem? g) e ∙ at)) in
            rw
              (
                stream_at-place (filled g co s room es) ci (some (with_entries s es))
                    (ap (get_elem? (filled g co s room es)) e ∙ filled-at g co s room es),
                out,
                ap gives t_s ∙ out,
              )
              (copy_streams-gather rest es (ci + 1) (next_same g rest ci (some t) same) all v.1)
        | no e ↦ elim (Bool-cases (gives t)) [
          | inl gv ↦
              rw
                (
                  elsewhere es ci (some t) e here,
                  gv,
                  ap (λ n. copy_slots true co ci 0 n (filled g co s room es)) (sym v.0.0)
                      ∙ copy_slots-filled g co s room ci t e here t.slots es 0
                          (λ j. ap (get_elem? t.slots) (omega arith)) all v.0.1,
                )
                (copy_streams-gather rest (es ++ live t.slots) (ci + 1)
                    (next_same g rest ci (some t) same)
                    (append-AllLive es (live t.slots) all (live-AllLive t.slots)) v.1
                  ∙ ap (λ l. done (filled g co s room l))
                      (append_assoc es (live t.slots) (gather rest)))
          | inr no_gv ↦
              rw (elsewhere es ci (some t) e here, no_gv)
                (copy_streams-gather rest es (ci + 1) (next_same g rest ci (some t) same) all v.1)
        ]
      ]
