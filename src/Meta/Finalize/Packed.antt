-- ===== src/Meta/Finalize/Packed.antt =====
-- How stream_meta_finalize of roard/meta.c fills the slots of one output stream.
use roaraudio.Prelude.{
  ℕ, zero, suc, ◌≤◌, ◌<◌, ◌≡◌, ◌≢◌, refl, sym, ◌∙◌, ap, ap₂, inl, inr, true, some, List, [], ◌∷◌,
  ◌++◌, ◌==◌, if◌then◌else◌, length, take, arith, ==-ne, Bool-cases, Option-cases, get_elem?, set,
  get_elem?-set_self, get_elem?-set_ne, ◌+◌,
}
use mathlib.Core.List.{append-nil, append_assoc}
use roaraudio.Status.{Status}
use roaraudio.Meta.{
  empty_slot, type_none, max_namelen, max_per_stream, Slot, Slots, Stream, Table, done, add_slot,
  clear_slots, meta_add,
}
use roaraudio.Meta.Slots.{IsMeta}
use roaraudio.Meta.Table.{meta_add-at}
use roaraudio.Meta.Finalize.{slot_at, copy_round, copy_slots, add_copy}

-- the slots in use, in order
abbrev pub live : Slots → Slots
live [] = []
live (x ∷ xs) = if x.kind == type_none then live xs else x ∷ live xs

abbrev pub AllLive : Slots → Type 0
AllLive [] = Unit {0}
AllLive (x ∷ xs) = (x.kind ≢ type_none) × AllLive xs

-- `n` slots of which the first hold `es`, as many of them as there is room for
abbrev pub packed : ℕ → Slots → Slots
packed zero es = []
packed (suc n) [] = empty_slot ∷ packed n []
packed (suc n) (e ∷ es) = e ∷ packed n es

take-all : {A : Type 0} (n : ℕ) (xs : List A) → length xs ≤ n → take n xs ≡ xs
take-all zero [] h = refl
take-all zero (x ∷ xs) h = absurd (omega arith)
take-all (suc n) [] h = refl
take-all (suc n) (x ∷ xs) h = ap (λ t. x ∷ t) (take-all n xs (omega arith))

pub clear_slots-packed : (xs : Slots) → clear_slots xs ≡ packed (length xs) []
clear_slots-packed [] = refl
clear_slots-packed (x ∷ xs) = ap (λ t. empty_slot ∷ t) (clear_slots-packed xs)

add_slot-packed :
    (n : ℕ) (es : Slots) (x : Slot) (v : List ℕ)
    → AllLive es
    → x.value ≡ some v
    → length x.key ≤ max_namelen
    → (add_slot true x.kind (some x.key) v (packed n es)).1 ≡ packed n (es ++ (x ∷ []))
unfolding add_slot
add_slot-packed zero es x v all has short = refl
add_slot-packed (suc n) [] x v all has short =
    ap₂ (λ key value. record { kind = x.kind; key = key; value = value } ∷ packed n [])
      (take-all 32 x.key short) (sym has)
add_slot-packed (suc n) (e ∷ es) x v all has short =
    rw (==-ne e.kind 0 all.0) (ap (λ t. e ∷ t) (add_slot-packed n es x v all.1 has short))

abbrev pub with_entries : Stream → Slots → Stream
with_entries s es = record s { slots = packed max_per_stream es }

set-set : {A : Type 0} (g : List A) (i : ℕ) (a b : A) → set (set g i a) i b ≡ set g i b
set-set [] i a b = refl
set-set (x ∷ g) zero a b = refl
set-set (x ∷ g) (suc i) a b = ap (λ t. x ∷ t) (set-set g i a b)

snoc-AllLive : (es : Slots) (x : Slot) → AllLive es → x.kind ≢ type_none → AllLive (es ++ (x ∷ []))
snoc-AllLive [] x all h = (h, tt)
snoc-AllLive (e ∷ es) x all h = (all.0, snoc-AllLive es x all.1 h)

add_copy-value :
    (co : ℕ) (x : Slot) (v : List ℕ) (g : Table)
    → x.value ≡ some v
    → add_copy true co x g ≡ meta_add true co x.kind (some x.key) v g
add_copy-value co x v g has = rw has

module _ (g : Table) (co : ℕ) (s : Stream) (room : co < length g) where
  -- What `co` holds after the entries `es`.
  abbrev pub filled : Slots → Table
  filled es = set g co (some (with_entries s es))

  pub filled-at : (es : Slots) → get_elem? (filled es) co ≡ some (some (with_entries s es))
  filled-at es = get_elem?-set_self g co (some (with_entries s es)) room

  add_copy-filled :
      (es : Slots) (x : Slot) (v : List ℕ)
      → AllLive es
      → x.value ≡ some v
      → length x.key ≤ max_namelen
      → (r : Status) × (add_copy true co x (filled es) ≡ done (r, filled (es ++ (x ∷ []))))
  add_copy-filled es x v all has short =
      let p = add_slot true x.kind (some x.key) v (packed max_per_stream es) in
      (
        p.0,
        add_copy-value co x v (filled es) has
            ∙ meta_add-at (filled es) co (with_entries s es) (filled-at es) true x.kind (some x.key)
                v
            ∙ ap (λ t. done (p.0, t))
                (ap (λ xs. set (filled es) co (some (record s { slots = xs })))
                    (add_slot-packed max_per_stream es x v all has short)
                  ∙ set-set g co (some (with_entries s es))
                      (some (with_entries s (es ++ (x ∷ []))))),
      )

  module _ (ci : ℕ) (t : Stream) (other : ci ≢ co) (there : get_elem? g ci ≡ some (some t)) where
    slot_at-filled :
        (es : Slots) (i : ℕ) (x : Slot)
        → get_elem? t.slots i ≡ some x
        → slot_at ci i (filled es) ≡ done x
    slot_at-filled es i x e =
        let at : get_elem? (filled es) ci ≡ some (some t) =
          get_elem?-set_ne g (some (with_entries s es)) (λ q. other (sym q)) ∙ there in
        rw (at, slot_at, e) refl

    copy_round-filled :
        (es : Slots) (i : ℕ) (x : Slot)
        → get_elem? t.slots i ≡ some x
        → AllLive es
        → IsMeta (x ∷ [])
        → copy_round true co ci i (filled es) ≡ done (filled (es ++ live (x ∷ [])))
    copy_round-filled es i x e all v = elim (Bool-cases (x.kind == type_none)) [
      | inl empty ↦ rw (slot_at-filled es i x e, copy_round, empty, append-nil) refl
      | inr kind ↦ elim (Option-cases x.value) [
        | inl n ↦ absurd (v.0.0 (ground arith) n)
        | inr p ↦
            let c = add_copy-filled es x p.0 all p.1 v.0.1 in
            rw (slot_at-filled es i x e, copy_round, kind, c.1) refl
      ]
    ]

    round-AllLive : (es : Slots) (x : Slot) → AllLive es → AllLive (es ++ live (x ∷ []))
    round-AllLive es x all = elim (Bool-cases (x.kind == type_none)) [
      | inl empty ↦ rw (empty, append-nil) all
      | inr kind ↦ rw kind (snoc-AllLive es x all (ground arith))
    ]

    live-cons : (x : Slot) (xs : Slots) → live (x ∷ xs) ≡ live (x ∷ []) ++ live xs
    live-cons x xs = elim (Bool-cases (x.kind == type_none)) [
      | inl empty ↦ rw empty refl
      | inr kind ↦ rw kind refl
    ]

    pub copy_slots-filled :
        (xs es : Slots) (i : ℕ)
        → ((j : ℕ) → get_elem? t.slots (i + j) ≡ get_elem? xs j)
        → AllLive es
        → IsMeta xs
        → copy_slots true co ci i (length xs) (filled es) ≡ done (filled (es ++ live xs))
    unfolding copy_slots
    copy_slots-filled [] es i same all v = rw append-nil
    copy_slots-filled (x ∷ xs) es i same all v =
        let here : get_elem? t.slots i ≡ some x = ap (get_elem? t.slots) (omega arith) ∙ same 0 in
        rw (copy_round-filled es i x here all (v.0, tt)) (
          copy_slots-filled xs (es ++ live (x ∷ [])) (i + 1)
            (λ j. ap (get_elem? t.slots) (omega arith) ∙ same (suc j)) (round-AllLive es x all) v.1
          ∙ ap (λ l. done (filled l)) (append_assoc es (live (x ∷ [])) (live xs))
          ∙ ap (λ l. done (filled (es ++ l))) (sym (live-cons x xs)))
