-- ===== src/Meta/Slots.antt =====
-- The slots of one stream (roard/meta.c): what stream_meta_set, _add, _get and _list do to them.
use roaraudio.Prelude.{
  ℕ, zero, suc, ◌≤◌, ◌≡◌, ◌≢◌, refl, sym, ◌∙◌, ap, inl, inr, Bool, true, false, Option, none, some,
  List, [], ◌∷◌, ◌++◌, ◌==◌, ◌||◌, length, take, arith, length-take, ==-self, ==-ne, Bool-cases,
}
use roaraudio.Status.{ok, failed}
use roaraudio.Meta.{
  clear_slots, type_none, max_namelen, Slot, Slots, key_of, same_string, named, remove_kind, fill,
  add_slot, copy_value, get_slot, holds, list_kinds,
}

-- a slot that `stream_meta_set` of `kind` can use
abbrev pub has_room : ℕ → Slots → Bool
has_room kind [] = false
has_room kind (x ∷ xs) = (x.kind == type_none) || (x.kind == kind) || has_room kind xs

same_string_self : (s : List ℕ) → same_string s s ≡ true
same_string_self [] = refl
same_string_self (c ∷ cs) = rw (==-self c) (same_string_self cs)

take-take : (n : ℕ) (s : List ℕ) → take n (take n s) ≡ take n s
take-take zero s = refl
take-take (suc n) [] = refl
take-take (suc n) (c ∷ cs) = rw (take-take n cs)

pub named-key_of :
    (name : Option (List ℕ)) (kind : ℕ) (v : Option (List ℕ))
    → named name (record { kind = kind; key = key_of name; value = v }) ≡ true
named-key_of none kind v = refl
named-key_of (some name) kind v = rw (take-take 32 name) (same_string_self (take 32 name))

pub set_slot-fits :
    (xs : Slots) (kind : ℕ) (name : Option (List ℕ)) (val : List ℕ)
    → has_room kind xs ≡ true
    → (add_slot true kind name val (remove_kind kind xs)).0 ≡ ok
unfolding add_slot remove_kind
set_slot-fits [] kind name val h = cc
set_slot-fits (x ∷ xs) kind name val h = ground (arith, set_slot-fits xs kind name val)

-- What is found of the kind that was set, asked with its name or without one.
pub get_slot-set_slot :
    (xs : Slots) (kind len : ℕ) (name asked : Option (List ℕ)) (val : List ℕ)
    → has_room kind xs ≡ true
    → kind ≢ type_none
    → named asked (record { kind = kind; key = key_of name; value = some val }) ≡ true
    → get_slot kind asked len (add_slot true kind name val (remove_kind kind xs)).1
      ≡ copy_value len (some val)
unfolding add_slot remove_kind get_slot
get_slot-set_slot [] kind len name asked val h some_kind found = cc
get_slot-set_slot (x ∷ xs) kind len name asked val h some_kind found =
    ground (arith, get_slot-set_slot xs kind len name asked val)

pub get_slot-remove_kind :
    (xs : Slots) (kind other len : ℕ) (name' : Option (List ℕ))
    → other ≢ kind
    → other ≢ type_none
    → get_slot other name' len (remove_kind kind xs) ≡ get_slot other name' len xs
unfolding remove_kind get_slot
get_slot-remove_kind [] kind other len name' h some_kind = refl
get_slot-remove_kind (x ∷ xs) kind other len name' h some_kind =
    ground (arith, get_slot-remove_kind xs kind other len name')

get_slot-cons :
    (xs ys : Slots) (other len : ℕ) (name' : Option (List ℕ)) (x : Slot)
    → get_slot other name' len xs ≡ get_slot other name' len ys
    → get_slot other name' len (x ∷ xs) ≡ get_slot other name' len (x ∷ ys)
unfolding get_slot
get_slot-cons xs ys other len name' x e = rw e

-- A slot of another kind is passed over.
get_slot-skip :
    (x : Slot) (xs : Slots) (other len : ℕ) (name' : Option (List ℕ))
    → x.kind ≢ other
    → get_slot other name' len (x ∷ xs) ≡ get_slot other name' len xs
unfolding get_slot
get_slot-skip x xs other len name' h = rw (==-ne x.kind other h)

fill-kind :
    (memory : Bool) (kind other : ℕ) (name : Option (List ℕ)) (val : List ℕ) (x : Slot)
    → other ≢ kind
    → other ≢ type_none
    → (fill memory kind name val x).1.kind ≢ other
fill-kind true kind other name val x h some_kind e = h (sym e)
fill-kind false kind other name val x h some_kind e = some_kind (sym e)

pub get_slot-add_slot :
    (memory : Bool) (xs : Slots) (kind other len : ℕ) (name name' : Option (List ℕ)) (val : List ℕ)
    → other ≢ kind
    → other ≢ type_none
    → get_slot other name' len (add_slot memory kind name val xs).1 ≡ get_slot other name' len xs
unfolding add_slot
get_slot-add_slot memory [] kind other len name name' val h some_kind = refl
get_slot-add_slot memory (x ∷ xs) kind other len name name' val h some_kind =
    elim (Bool-cases (x.kind == type_none)) [
      | inl e ↦ rw e (
          get_slot-skip (fill memory kind name val x).1 xs other len name'
            (fill-kind memory kind other name val x h some_kind)
          ∙ sym (get_slot-skip x xs other len name' (ground arith)))
      | inr e ↦ rw e (
          get_slot-cons _ xs other len name' x
            (get_slot-add_slot memory xs kind other len name name' val h some_kind))
    ]

-- a slot of a live kind has a value: what `strlen` and `strdup` are called with
abbrev pub IsMeta : Slots → Type 0
IsMeta [] = Unit {0}
IsMeta (x ∷ xs) = ((x.kind ≢ type_none → x.value ≢ none) × (length x.key ≤ max_namelen)) × IsMeta xs

pub remove_kind-IsMeta : (kind : ℕ) (xs : Slots) → IsMeta xs → IsMeta (remove_kind kind xs)
unfolding remove_kind
remove_kind-IsMeta kind [] v = tt
remove_kind-IsMeta kind (x ∷ xs) v = elim (Bool-cases (x.kind == kind)) [
  | inl e ↦ rw e ((λ some_kind. absurd (some_kind refl), v.0.1), remove_kind-IsMeta kind xs v.1)
  | inr e ↦ rw e (v.0, remove_kind-IsMeta kind xs v.1)
]

key_of-short : (name : Option (List ℕ)) → length (key_of name) ≤ max_namelen
key_of-short none = omega arith
key_of-short (some name) = omega (arith, length-take 32 name)

fill-IsMeta :
    (memory : Bool) (kind : ℕ) (name : Option (List ℕ)) (val : List ℕ) (x : Slot)
    → length x.key ≤ max_namelen
    → let y = (fill memory kind name val x).1 in
      (y.kind ≢ type_none → y.value ≢ none) × (length y.key ≤ max_namelen)
fill-IsMeta true kind name val x h = (λ _ e. cc, key_of-short name)
fill-IsMeta false kind name val x h = (λ some_kind. absurd (some_kind refl), omega arith)

pub add_slot-IsMeta :
    (memory : Bool) (kind : ℕ) (name : Option (List ℕ)) (val : List ℕ) (xs : Slots)
    → IsMeta xs
    → IsMeta (add_slot memory kind name val xs).1
unfolding add_slot
add_slot-IsMeta memory kind name val [] v = tt
add_slot-IsMeta memory kind name val (x ∷ xs) v = elim (Bool-cases (x.kind == type_none)) [
  | inl e ↦ rw e (fill-IsMeta memory kind name val x v.0.1, v.1)
  | inr e ↦ rw e (v.0, add_slot-IsMeta memory kind name val xs v.1)
]

pub clear_slots-IsMeta : (xs : Slots) → IsMeta (clear_slots xs)
clear_slots-IsMeta [] = tt
clear_slots-IsMeta (x ∷ xs) =
    ((λ some_kind. absurd (some_kind refl), omega arith), clear_slots-IsMeta xs)

-- Without a free slot nothing is changed.
pub add_slot-full :
    (memory : Bool) (kind : ℕ) (name : Option (List ℕ)) (val : List ℕ) (xs : Slots)
    → has_room type_none xs ≡ false
    → add_slot memory kind name val xs ≡ (failed, xs)
unfolding add_slot
add_slot-full memory kind name val [] h = refl
add_slot-full memory kind name val (x ∷ xs) h =
    ground (arith, add_slot-full memory kind name val xs)

pub add_slot-length :
    (memory : Bool) (kind : ℕ) (name : Option (List ℕ)) (val : List ℕ) (xs : Slots)
    → length (add_slot memory kind name val xs).1 ≡ length xs
unfolding add_slot
add_slot-length memory kind name val [] = refl
add_slot-length memory kind name val (x ∷ xs) =
    ground (arith, add_slot-length memory kind name val xs)

pub remove_kind-length : (kind : ℕ) (xs : Slots) → length (remove_kind kind xs) ≡ length xs
unfolding remove_kind
remove_kind-length kind [] = refl
remove_kind-length kind (x ∷ xs) = ap suc (remove_kind-length kind xs)

abbrev pub has_kind : ℕ → Slots → Bool
has_kind t [] = false
has_kind t (x ∷ xs) = (x.kind == t) || has_kind t xs

abbrev pub Distinct : List ℕ → Type 0
Distinct [] = Unit {0}
Distinct (t ∷ ts) = (holds t ts ≡ false) × Distinct ts

holds-snoc : (t u : ℕ) (ts : List ℕ) → holds t (ts ++ (u ∷ [])) ≡ (holds t ts || (u == t))
holds-snoc t u [] = ground arith
holds-snoc t u (v ∷ ts) = rw (holds-snoc t u ts) (ground arith)

snoc-Distinct : (u : ℕ) (ts : List ℕ) → holds u ts ≡ false → Distinct ts → Distinct (ts ++ (u ∷ []))
snoc-Distinct u [] h d = (refl, tt)
snoc-Distinct u (t ∷ ts) h d = (rw holds-snoc (ground arith), snoc-Distinct u ts (ground arith) d.1)

pub list_kinds-holds :
    (t : ℕ) (have : List ℕ) (xs : Slots)
    → holds t (list_kinds have xs) ≡ (holds t have || has_kind t xs)
unfolding list_kinds
list_kinds-holds t have [] = ground arith
list_kinds-holds t have (x ∷ xs) = elim (Bool-cases (holds x.kind have)) [
  | inl e ↦ rw e (list_kinds-holds t have xs ∙ ground arith)
  | inr e ↦ rw e (list_kinds-holds t (have ++ (x.kind ∷ [])) xs ∙ rw holds-snoc (ground arith))
]

pub list_kinds-Distinct :
    (have : List ℕ) (xs : Slots) → Distinct have → Distinct (list_kinds have xs)
unfolding list_kinds
list_kinds-Distinct have [] d = d
list_kinds-Distinct have (x ∷ xs) d = elim (Bool-cases (holds x.kind have)) [
  | inl e ↦ rw e (list_kinds-Distinct have xs d)
  | inr e ↦ rw e (list_kinds-Distinct (have ++ (x.kind ∷ [])) xs (snoc-Distinct x.kind have e d))
]
