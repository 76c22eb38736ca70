-- ===== src/Meta/Keep.antt =====
-- What every call of roard/meta.c that changes the table of streams keeps.
use roaraudio.Prelude.{
  ℕ, zero, suc, ◌<◌, ◌≡◌, ◌∙◌, Bool, Option, none, some, List, [], ◌∷◌, length, arith, get_elem?,
  set, get_elem?_inside, length-set, length-map,
}
use mathlib.Core.Path.{subst}
use mathlib.Core.Option.{some-injective}
use roaraudio.Status.{Status, ok, failed}
use roaraudio.Meta.{
  empty_slot, streams_max, max_per_stream, Slots, Stream, Table, Run, done, put_slots, stream_at,
  remove_kind, add_slot, set_slot, clear_slots, meta_set, meta_add, meta_clear,
}
use roaraudio.Meta.Table.{meta_set-at, meta_add-at, meta_clear-at}
use roaraudio.Meta.Slots.{
  IsMeta, remove_kind-IsMeta, add_slot-IsMeta, clear_slots-IsMeta, add_slot-length,
  remove_kind-length,
}

-- every stream has its sixteen slots, and every slot of a live kind has its value
abbrev pub AllMeta : Table → Type 0
AllMeta [] = Unit {0}
AllMeta (none ∷ g) = AllMeta g
AllMeta (some s ∷ g) = ((length s.slots ≡ max_per_stream) × IsMeta s.slots) × AllMeta g

pub AllMeta-at :
    (g : Table) (id : ℕ) (s : Stream)
    → AllMeta g
    → get_elem? g id ≡ some (some s)
    → (length s.slots ≡ max_per_stream) × IsMeta s.slots
AllMeta-at [] id s v at = cc
AllMeta-at (none ∷ g) zero s v at = cc
AllMeta-at (none ∷ g) (suc id) s v at = AllMeta-at g id s v at
AllMeta-at (some t ∷ g) zero s v at =
    subst (λ u. (length u.slots ≡ max_per_stream) × IsMeta u.slots)
      (some-injective t s (some-injective (some t) (some s) at)) v.0
AllMeta-at (some t ∷ g) (suc id) s v at = AllMeta-at g id s v.1 at

pub set-AllMeta :
    (g : Table) (id : ℕ) (s : Stream)
    → AllMeta g
    → length s.slots ≡ max_per_stream
    → IsMeta s.slots
    → AllMeta (set g id (some s))
set-AllMeta [] id s v n m = tt
set-AllMeta (none ∷ g) zero s v n m = ((n, m), v)
set-AllMeta (some t ∷ g) zero s v n m = ((n, m), v.1)
set-AllMeta (none ∷ g) (suc id) s v n m = set-AllMeta g id s v n m
set-AllMeta (some t ∷ g) (suc id) s v n m = (v.0, set-AllMeta g id s v.1 n m)

-- The calls that change a table.
pub data Change : Type 0 where
  to_set to_add : (memory : Bool) → ℕ → Option (List ℕ) → List ℕ → Change
  to_clear : Change

abbrev pub change : Change → ℕ → Table → Run (Status × Table)
change (to_set memory kind name val) id g = meta_set memory id kind name val g
change (to_add memory kind name val) id g = meta_add memory id kind name val g
change to_clear id g = meta_clear id g

length-set_slot :
    (memory : Bool) (kind : ℕ) (name : Option (List ℕ)) (val : List ℕ) (xs : Slots)
    → length (add_slot memory kind name val (remove_kind kind xs)).1 ≡ length xs
length-set_slot memory kind name val xs =
    add_slot-length memory kind name val (remove_kind kind xs) ∙ remove_kind-length kind xs

-- What a call that returns leaves, where it keeps the invariant.
abbrev pub Kept : Run (Status × Table) → Type 0
Kept x = (r : Status) × (g' : Table) × (x ≡ done (r, g')) × AllMeta g' × (length g' ≡ streams_max)

Kept-put :
    (g : Table) (id : ℕ) (s : Stream) (p : Status × Slots) (x : Run (Status × Table))
    → AllMeta g
    → length g ≡ streams_max
    → length p.1 ≡ max_per_stream
    → IsMeta p.1
    → x ≡ done (put_slots g id s p)
    → Kept x
Kept-put g id s (r, xs) x v size n m e =
    let s' : Stream = record s { slots = xs } in
    (r, set g id (some s'), e, set-AllMeta g id s' v n m, length-set g id (some s') ∙ size)

Kept-some :
    (c : Change) (g : Table) (id : ℕ) (s : Stream)
    → AllMeta g
    → length g ≡ streams_max
    → id < streams_max
    → get_elem? g id ≡ some (some s)
    → Kept (change c id g)
unfolding set_slot
Kept-some (to_set memory kind name val) g id s v size ok_id at =
    let t = AllMeta-at g id s v at in
    Kept-put g id s (add_slot memory kind name val (remove_kind kind s.slots))
      (change (to_set memory kind name val) id g) v size
      (length-set_slot memory kind name val s.slots ∙ t.0)
      (add_slot-IsMeta memory kind name val (remove_kind kind s.slots)
        (remove_kind-IsMeta kind s.slots t.1))
      (meta_set-at g id s at memory kind name val)
Kept-some (to_add memory kind name val) g id s v size ok_id at =
    let t = AllMeta-at g id s v at in
    Kept-put g id s (add_slot memory kind name val s.slots)
      (change (to_add memory kind name val) id g) v size
      (add_slot-length memory kind name val s.slots ∙ t.0)
      (add_slot-IsMeta memory kind name val s.slots t.1)
      (meta_add-at g id s at memory kind name val)
Kept-some to_clear g id s v size ok_id at =
    let t = AllMeta-at g id s v at in
    Kept-put g id s (ok, clear_slots s.slots) (change to_clear id g) v size
      (length-map s.slots (λ x. empty_slot) ∙ t.0) (clear_slots-IsMeta s.slots)
      (meta_clear-at g id s at (omega arith))

change-none :
    (c : Change) (g : Table) (id : ℕ)
    → id < streams_max
    → get_elem? g id ≡ some none
    → change c id g ≡ done (failed, g)
unfolding meta_set meta_add meta_clear stream_at
change-none (to_set memory kind name val) g id ok_id at = rw (at, stream_at)
change-none (to_add memory kind name val) g id ok_id at = rw (at, stream_at)
change-none to_clear g id ok_id at = rw (at, stream_at) (ground arith)

Kept-place :
    (c : Change) (g : Table) (id : ℕ) (p : Option Stream)
    → AllMeta g
    → length g ≡ streams_max
    → id < streams_max
    → get_elem? g id ≡ some p
    → Kept (change c id g)
Kept-place c g id none v size ok_id at = (failed, g, change-none c g id ok_id at, v, size)
Kept-place c g id (some s) v size ok_id at = Kept-some c g id s v size ok_id at

-- `stream_meta_set`, `stream_meta_add` and `stream_meta_clear` of a stream number within the table
-- return, whatever `strdup` does, and keep the table's size, the sixteen slots of each stream, and that
-- a slot of a live kind has a value.
pub change-AllMeta :
    (c : Change) (g : Table) (id : ℕ)
    → AllMeta g
    → length g ≡ streams_max
    → id < streams_max
    → Kept (change c id g)
change-AllMeta c g id v size ok_id =
    let p = get_elem?_inside g id (omega arith) in Kept-place c g id p.0 v size ok_id p.1
