-- ===== src/Meta.antt =====
-- roard/meta.c: the meta data of the server's streams, sixteen slots each. A string is the list of
-- its characters, none of which is 0. `free` of a value is not modelled beyond the NULL that is
-- stored. The functions on the slots of one stream stand before those on the table of streams.
pub mod Slots
pub mod Table
pub mod Keep
pub mod Finalize
mod Tests
use Prim.Native.Nat.{bit_and}
use roaraudio.Prelude.{
  ℕ, zero, suc, ◌+◌, ◌-◌, ◌≡◌, Bool, true, false, Option, none, some, List, [], ◌∷◌, ◌++◌, map,
  ◌==◌, ltb, if◌then◌else◌, not, ◌&&◌, ◌||◌, length, take, get_elem?, set, replicate,
}
use roaraudio.Status.{Status, ok, failed}
use roaraudio.Memory.{sub_size}

-- ROAR_META_TYPE_NONE, ROAR_META_MAX_NAMELEN, ROAR_META_MAX_PER_STREAM and ROAR_STREAMS_MAX
abbrev pub type_none : ℕ
type_none = 0

abbrev pub max_namelen : ℕ
max_namelen = 32

abbrev pub max_per_stream : ℕ
max_per_stream = 16

abbrev pub streams_max : ℕ
streams_max = 64

-- `struct roar_meta`: `key` holds the characters in front of a 0, or all of them.
pub record Slot : Type 0 where
  pub kind : ℕ
  pub key : List ℕ
  pub value : Option (List ℕ)

abbrev pub empty_slot : Slot
empty_slot = record { kind = type_none; key = []; value = none }

-- the slots of one stream
abbrev pub Slots : Type 0
Slots = List Slot

-- `strncpy(key, name, ROAR_META_MAX_NAMELEN)`, or the empty string for NULL
abbrev pub key_of : Option (List ℕ) → List ℕ
key_of none = []
key_of (some name) = take max_namelen name

abbrev pub same_string : List ℕ → List ℕ → Bool
same_string [] [] = true
same_string [] (d ∷ ds) = false
same_string (c ∷ cs) [] = false
same_string (c ∷ cs) (d ∷ ds) = (c == d) && same_string cs ds

-- `name == NULL` or `strncmp(key, name, ROAR_META_MAX_NAMELEN) == 0`
abbrev pub named : Option (List ℕ) → Slot → Bool
named none x = true
named (some name) x = same_string (take max_namelen x.key) (take max_namelen name)

-- The loop of stream_meta_set.
pub remove_kind : ℕ → Slots → Slots
remove_kind kind [] = []
remove_kind kind (x ∷ xs) =
    (if x.kind == kind then record x { kind = type_none; value = none } else x)
    ∷ remove_kind kind xs

-- The body of the loop of stream_meta_add at a slot that is free; `memory` says that `strdup`
-- succeeds.
abbrev pub fill : (memory : Bool) → ℕ → Option (List ℕ) → List ℕ → Slot → Status × Slot
fill memory kind name val x =
    if memory
    then (ok, record { kind = kind; key = key_of name; value = some val })
    else (failed, record x { kind = type_none; key = [] })

-- The loop of stream_meta_add.
pub add_slot : (memory : Bool) → ℕ → Option (List ℕ) → List ℕ → Slots → Status × Slots
add_slot memory kind name val [] = (failed, [])
add_slot memory kind name val (x ∷ xs) =
    let rest = add_slot memory kind name val xs in
    if x.kind == type_none
    then ((fill memory kind name val x).0, (fill memory kind name val x).1 ∷ xs)
    else (rest.0, x ∷ rest.1)

-- The two loops, as stream_meta_set runs them.
unfoldable pub set_slot : (memory : Bool) → ℕ → Option (List ℕ) → List ℕ → Slots → Status × Slots
unfolding add_slot remove_kind
set_slot memory kind name val xs = add_slot memory kind name val (remove_kind kind xs)

-- What stream_meta_get does at the slot it finds: the string that is stored at `val`, which has room
-- for `len` characters.
abbrev pub copy_value : ℕ → Option (List ℕ) → Option (List ℕ)
copy_value len none = none
copy_value len (some v) = if ltb (sub_size len 1) (length v) then none else some v

-- The loop of stream_meta_get; `none` is -1.
pub get_slot : ℕ → Option (List ℕ) → ℕ → Slots → Option (List ℕ)
get_slot kind name len [] = none
get_slot kind name len (x ∷ xs) =
    let rest = get_slot kind name len xs in
    if (x.kind == kind) && named name x then copy_value len x.value else rest

abbrev pub holds : ℕ → List ℕ → Bool
holds t [] = false
holds t (u ∷ us) = (u == t) || holds t us

-- The loops of stream_meta_list: `have` is what stands in `types` so far.
pub list_kinds : List ℕ → Slots → List ℕ
list_kinds have [] = have
list_kinds have (x ∷ xs) = list_kinds (if holds x.kind have then have else have ++ (x.kind ∷ [])) xs

-- The loop of stream_meta_clear.
abbrev pub clear_slots : Slots → Slots
clear_slots xs = map (λ x. empty_slot) xs

-- What the other functions need of `struct roar_stream_server`.
pub record Stream : Type 0 where
  pub dir : ℕ
  pub flags : ℕ
  pub slots : Slots

-- `g_streams`: sixty-four pointers.
abbrev pub Table : Type 0
Table = List (Option Stream)

-- `fault` is an access outside the table, or through NULL; `exited` is a call of `exit`.
pub data Run (A : Type 0) : Type 0 where
  done : A → Run A
  exited : Run A
  fault : Run A

abbrev pub and_then : {A B : Type 0} → Run A → (A → Run B) → Run B
and_then (done a) f = f a
and_then exited f = exited
and_then fault f = fault

infixl 5 ◌>>=◌
abbrev pub ◌>>=◌ : {A B : Type 0} → Run A → (A → Run B) → Run B
m >>= f = and_then m f

abbrev pub pure : {A : Type 0} → A → Run A
pure a = done a

-- `g_streams[id]`
unfoldable pub stream_at : Table → ℕ → Run (Option Stream)
stream_at g id = elim (get_elem? g id) [ none ↦ fault | some s ↦ done s ]

abbrev pub put_slots : Table → ℕ → Stream → Status × Slots → Status × Table
put_slots g id s (r, xs) = (r, set g id (some (record s { slots = xs })))

-- `stream_meta_set`
unfoldable pub meta_set :
    (memory : Bool) → ℕ → ℕ → Option (List ℕ) → List ℕ → Table → Run (Status × Table)
unfolding set_slot
meta_set memory id kind name val g = do
  p ← stream_at g id
  elim p [
    | none ↦ pure (failed, g)
    | some s ↦ pure (put_slots g id s (set_slot memory kind name val s.slots))
  ]

-- `stream_meta_add`
unfoldable pub meta_add :
    (memory : Bool) → ℕ → ℕ → Option (List ℕ) → List ℕ → Table → Run (Status × Table)
unfolding add_slot
meta_add memory id kind name val g = do
  p ← stream_at g id
  elim p [
    | none ↦ pure (failed, g)
    | some s ↦ pure (put_slots g id s (add_slot memory kind name val s.slots))
  ]

-- `stream_meta_get`
unfoldable pub meta_get : ℕ → ℕ → Option (List ℕ) → ℕ → Table → Run (Option (List ℕ))
unfolding get_slot
meta_get id kind name len g = do
  p ← stream_at g id
  elim p [ none ↦ pure none | some s ↦ pure (get_slot kind name len s.slots) ]

-- `stream_meta_list`
unfoldable pub meta_list : ℕ → ℕ → Table → Run (Option (List ℕ))
unfolding list_kinds
meta_list id len g = do
  p ← stream_at g id
  elim p [
    | none ↦ pure none
    | some s ↦ pure (if ltb len max_per_stream then none else some (list_kinds [] s.slots))
  ]

-- `stream_meta_clear`: an `id` below 0 is a pattern above ROAR_STREAMS_MAX.
unfoldable pub meta_clear : ℕ → Table → Run (Status × Table)
meta_clear id g = if ltb streams_max id then pure (failed, g) else (do
  p ← stream_at g id
  elim p [ none ↦ pure (failed, g) | some s ↦ pure (put_slots g id s (ok, clear_slots s.slots)) ])
