-- ===== src/Meta/Table.antt =====
-- The functions of roard/meta.c on the table of streams.
use roaraudio.Prelude.{
  ℕ, zero, suc, ◌≤◌, ◌<◌, ◌^◌, ◌≡◌, ◌≢◌, refl, sym, ◌∙◌, ap, ◌↔◌, inl, inr, Bool, true, false,
  Option, none, some, List, [], ◌∷◌, ltb, length, arith, Bool-cases, get_elem?, set,
  get_elem?_inside, get_elem?_outside, get_elem?-set_self, get_elem?-set_ne,
}
use native.Mathlib.Decide.{dec_lt}
use mathlib.Core.Option.{some-injective}
use roaraudio.Status.{Status, ok, failed}
use roaraudio.Meta.{
  streams_max, type_none, max_per_stream, Stream, Table, Run, done, fault, key_of, named, put_slots,
  stream_at, remove_kind, add_slot, set_slot, clear_slots, get_slot, holds, list_kinds, meta_set,
  meta_add, meta_get, meta_list, meta_clear,
}
use roaraudio.Meta.Slots.{
  has_room, has_kind, Distinct, named-key_of, set_slot-fits, get_slot-set_slot,
  get_slot-remove_kind, get_slot-add_slot, add_slot-full, list_kinds-holds, list_kinds-Distinct,
}

pub inside : (g : Table) (id : ℕ) (p : Option Stream) → get_elem? g id ≡ some p → id < length g
inside [] id p at = cc
inside (x ∷ g) zero p at = omega arith
inside (x ∷ g) (suc id) p at = omega (arith, inside g id p at)

set-same : (g : Table) (id : ℕ) (p : Option Stream) → get_elem? g id ≡ some p → set g id p ≡ g
set-same [] id p at = refl
set-same (x ∷ g) zero p at = ap (λ y. y ∷ g) (sym (some-injective x p at))
set-same (x ∷ g) (suc id) p at = ap (λ t. x ∷ t) (set-same g id p at)

-- The functions at a stream that is there.
module _ (g : Table) (id : ℕ) (s : Stream) (at : get_elem? g id ≡ some (some s)) where
  pub meta_set-at :
      (memory : Bool) (kind : ℕ) (name : Option (List ℕ)) (val : List ℕ)
      → meta_set memory id kind name val g
        ≡ done (put_slots g id s (set_slot memory kind name val s.slots))
  unfolding meta_set stream_at
  meta_set-at memory kind name val = rw (at, stream_at)

  pub meta_add-at :
      (memory : Bool) (kind : ℕ) (name : Option (List ℕ)) (val : List ℕ)
      → meta_add memory id kind name val g
        ≡ done (put_slots g id s (add_slot memory kind name val s.slots))
  unfolding meta_add stream_at
  meta_add-at memory kind name val = rw (at, stream_at)

  meta_get-at :
      (kind : ℕ) (name : Option (List ℕ)) (len : ℕ)
      → meta_get id kind name len g ≡ done (get_slot kind name len s.slots)
  unfolding meta_get stream_at
  meta_get-at kind name len = rw (at, stream_at)

  meta_list-at : (len : ℕ) → 16 ≤ len → meta_list id len g ≡ done (some (list_kinds [] s.slots))
  unfolding meta_list stream_at
  meta_list-at len h = rw (at, stream_at) (ground arith)

  pub meta_clear-at : id ≤ 64 → meta_clear id g ≡ done (put_slots g id s (ok, clear_slots s.slots))
  unfolding meta_clear stream_at
  meta_clear-at h = rw (at, stream_at) (ground arith)

-- After `stream_meta_set` of a kind other than none, in a stream with a slot that is free or of this
-- kind, `stream_meta_get` with a buffer of more than `length val` bytes gives the value that was
-- set, asked with the same name or without one; what it gives for any other kind, and every other
-- stream, is as before.
pub meta_get-meta_set :
    (g : Table) (id kind len : ℕ) (s : Stream) (name : Option (List ℕ)) (val : List ℕ)
    → get_elem? g id ≡ some (some s)
    → has_room kind s.slots ≡ true
    → kind ≢ type_none
    → length val < len
    → len < 2 ^ 64
    → (g' : Table) × (meta_set true id kind name val g ≡ done (ok, g'))
      × (meta_get id kind name len g' ≡ done (some val))
      × (meta_get id kind none len g' ≡ done (some val))
      × ((other len' : ℕ) (name' : Option (List ℕ))
          → other ≢ kind
          → other ≢ type_none
          → meta_get id other name' len' g' ≡ meta_get id other name' len' g)
      × ((j : ℕ) → j ≢ id → get_elem? g' j ≡ get_elem? g j)
unfolding meta_set meta_get set_slot
meta_get-meta_set g id kind len s name val at room some_kind more small =
    let xs = (add_slot true kind name val (remove_kind kind s.slots)).1 in
    let s' : Stream = record s { slots = xs } in
    let at' : get_elem? (set g id (some s')) id ≡ some (some s') =
      get_elem?-set_self g id (some s') (inside g id (some s) at) in
    let found : (asked : Option (List ℕ))
        → named asked (record { kind = kind; key = key_of name; value = some val }) ≡ true
        → meta_get id kind asked len (set g id (some s')) ≡ done (some val) =
      λ asked same.
        meta_get-at (set g id (some s')) id s' at' kind asked len
        ∙ ap (λ r. done r)
            (get_slot-set_slot s.slots kind len name asked val room some_kind same
              ∙ ground arith) in
    (
      set g id (some s'),
      meta_set-at g id s at true kind name val
          ∙ ap (λ r. done (r, set g id (some s'))) (set_slot-fits s.slots kind name val room),
      found name (named-key_of name kind (some val)),
      found none refl,
      λ other len' name' h other_kind.
          meta_get-at (set g id (some s')) id s' at' other name' len'
          ∙ ap (λ r. done r)
              (get_slot-add_slot true (remove_kind kind s.slots) kind other len' name name' val h
                  other_kind
                ∙ get_slot-remove_kind s.slots kind other len' name' h other_kind)
          ∙ sym (meta_get-at g id s at other name' len'),
      λ j h. get_elem?-set_ne g (some s') (λ e. h (sym e)),
    )

-- A stream none of whose slots is free refuses `stream_meta_add`, and nothing changes.
pub meta_add-full :
    (g : Table) (id kind : ℕ) (s : Stream) (memory : Bool) (name : Option (List ℕ)) (val : List ℕ)
    → get_elem? g id ≡ some (some s)
    → has_room type_none s.slots ≡ false
    → meta_add memory id kind name val g ≡ done (failed, g)
meta_add-full g id kind s memory name val at full =
    meta_add-at g id s at memory kind name val
    ∙ rw (add_slot-full memory kind name val s.slots full)
        (ap (λ t. done (failed, t)) (set-same g id (some s) at))

-- `stream_meta_list` with room for sixteen kinds gives each kind that a slot of the stream has, and
-- no kind twice.
meta_list-kinds :
    (g : Table) (id len : ℕ) (s : Stream)
    → get_elem? g id ≡ some (some s)
    → max_per_stream ≤ len
    → (types : List ℕ) × (meta_list id len g ≡ done (some types))
      × ((t : ℕ) → holds t types ≡ has_kind t s.slots)
      × Distinct types
meta_list-kinds g id len s at room = (
  list_kinds [] s.slots,
  meta_list-at g id s at len room,
  λ t. list_kinds-holds t [] s.slots,
  list_kinds-Distinct [] s.slots tt,
)

meta_clear_ends :
    (g : Table) (id : ℕ) (p : Option Stream)
    → id ≤ streams_max
    → get_elem? g id ≡ some p
    → (y : Status × Table) × (meta_clear id g ≡ done y)
unfolding meta_clear stream_at
meta_clear_ends g id none h at = ((failed, g), rw (at, stream_at) (ground arith))
meta_clear_ends g id (some s) h at =
    (put_slots g id s (ok, clear_slots s.slots), meta_clear-at g id s at h)

meta_get_ends :
    (g : Table) (id kind len : ℕ) (name : Option (List ℕ)) (p : Option Stream)
    → get_elem? g id ≡ some p
    → (y : Option (List ℕ)) × (meta_get id kind name len g ≡ done y)
unfolding meta_get stream_at
meta_get_ends g id kind len name none at = (none, rw (at, stream_at))
meta_get_ends g id kind len name (some s) at =
    (get_slot kind name len s.slots, meta_get-at g id s at kind name len)

done-no_fault : {A : Type 0} (x : Run A) → (y : A) × (x ≡ done y) → x ≢ fault
done-no_fault x y e = cc

meta_clear_only :
    (id : ℕ) (g : Table) → meta_clear id g ≡ fault → streams_max ≤ id → id ≡ streams_max
unfolding meta_clear
meta_clear_only id g e h = elim (Bool-cases (ltb streams_max id)) [
  | inl past ↦ absurd (done-no_fault (meta_clear id g) ((failed, g), rw past) e)
  | inr here ↦ ground arith
]

-- With a table of ROAR_STREAMS_MAX streams `stream_meta_clear` reads outside it for exactly one
-- stream number, ROAR_STREAMS_MAX, which its guard lets pass; `stream_meta_get`, which has no guard,
-- does so for every number from there on.
pub meta_clear-fault :
    (g : Table) (id kind len : ℕ) (name : Option (List ℕ))
    → length g ≡ streams_max
    → ((meta_clear id g ≡ fault) ↔ (id ≡ streams_max))
      × ((meta_get id kind name len g ≡ fault) ↔ (streams_max ≤ id))
unfolding meta_clear meta_get stream_at
meta_clear-fault g id kind len name size = elim (dec_lt id streams_max) [
  | yes h ↦
      let p = get_elem?_inside g id (omega arith) in
      (
        (
          λ e.
              absurd
                (done-no_fault (meta_clear id g) (meta_clear_ends g id p.0 (omega arith) p.1) e),
          λ e. absurd (omega arith),
        ),
        (
          λ e. absurd (
              done-no_fault (meta_get id kind name len g) (meta_get_ends g id kind len name p.0 p.1)
                e),
          λ e. absurd (omega arith),
        ),
      )
  | no h ↦
      let out : get_elem? g id ≡ none = get_elem?_outside g id (omega arith) in
      (
        (λ e. meta_clear_only id g e (omega arith), λ e. rw (out, stream_at) (ground arith)),
        (λ e. omega arith, λ e. rw (out, stream_at)),
      )
]
