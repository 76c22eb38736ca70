-- ===== src/Client/Slots.antt =====
-- Slots of a client and places of a table (roard/clients.c): what a write in them changes.
use roaraudio.Prelude.{
  ℕ, zero, suc, ◌+◌, ◌<◌, ◌≡◌, ◌≢◌, inl, inr, refl, Bool, Option, none, some, List, [], ◌∷◌, ◌==◌,
  if◌then◌else◌, get_elem?, replicate, arith, Option-cases, Bool-cases,
}
use roaraudio.Client.{replace_first, free_place}

-- How often a number stands in the slots.
abbrev pub count : ℕ → List ℕ → ℕ
count n [] = 0
count n (s ∷ ss) = (if s == n then 1 else 0) + count n ss

abbrev pub one_if : Bool → ℕ
one_if b = if b then 1 else 0

pub count-replace_first :
    (old new n : ℕ) (ss ts : List ℕ)
    → replace_first old new ss ≡ some ts
    → count n ts + one_if (old == n) ≡ count n ss + one_if (new == n)
unfolding replace_first
count-replace_first old new n [] ts e = absurd (ground arith)
count-replace_first old new n (s ∷ ss) ts e = elim (Bool-cases (s == old)) [
  | inl here ↦ ground arith
  | inr later ↦ elim (Option-cases (replace_first old new ss)) [
    | inl gone ↦ absurd (ground arith)
    | inr (us, p) ↦ let ih = count-replace_first old new n ss us p in ground arith
  ]
]

pub replace_first-some :
    (old new : ℕ) (ss : List ℕ)
    → 0 < count old ss
    → (ts : List ℕ) × (replace_first old new ss ≡ some ts)
unfolding replace_first
replace_first-some old new [] h = absurd (omega arith)
replace_first-some old new (s ∷ ss) h = elim (Bool-cases (s == old)) [
  | inl here ↦ (new ∷ ss, rw here refl)
  | inr later ↦
      let r = replace_first-some old new ss (ground arith) in (s ∷ r.0, rw (later, r.1) refl)
]

pub replace_first-none :
    (old new : ℕ) (ss : List ℕ) → count old ss ≡ 0 → replace_first old new ss ≡ none
unfolding replace_first
replace_first-none old new [] h = refl
replace_first-none old new (s ∷ ss) h =
    let ih : count old ss ≡ 0 → replace_first old new ss ≡ none = replace_first-none old new ss in
    ground (arith, ih)

pub free_place-first {ℓ} :
    {A : Type ℓ} (ps : List (Option A)) (i : ℕ)
    → free_place ps ≡ some i
    → get_elem? ps i ≡ some none
unfolding free_place
free_place-first [] i e = absurd (ground arith)
free_place-first (none ∷ ps) i e = let same : i ≡ 0 = ground arith in rw same refl
free_place-first (some p ∷ ps) i e = elim (Option-cases (free_place ps)) [
  | inl gone ↦ absurd (ground arith)
  | inr (k, q) ↦ let same : i ≡ suc k = ground arith in rw same (free_place-first ps k q)
]

pub count-replicate : (n m k : ℕ) → n ≢ m → count n (replicate k m) ≡ 0
count-replicate n m zero h = refl
count-replicate n m (suc k) h = ground (arith, count-replicate n m k h)
