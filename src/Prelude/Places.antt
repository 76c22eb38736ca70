-- ===== src/Prelude/Places.antt =====
-- Reading a list at a place, after a write or in a list of equal entries.
use roaraudio.Prelude.{
  ℕ, zero, suc, ◌+◌, ◌≤◌, ◌<◌, ◌++◌, take, drop, ◌≡◌, inl, inr, refl, ap, ◌∙◌, Option, some, List,
  [], ◌∷◌, ◌==◌, if◌then◌else◌, get_elem?, set, length, replicate, arith, Bool-cases,
}

pub get_elem?-set {ℓ} :
    {A : Type ℓ} (xs : List A) (i j : ℕ) (v : A)
    → i < length xs
    → get_elem? (set xs i v) j ≡ (if i == j then some v else get_elem? xs j)
get_elem?-set [] i j v h = absurd (omega arith)
get_elem?-set (x ∷ xs) zero zero v h = refl
get_elem?-set (x ∷ xs) zero (suc j) v h = ground arith
get_elem?-set (x ∷ xs) (suc i) zero v h = ground arith
get_elem?-set (x ∷ xs) (suc i) (suc j) v h =
    let ih = get_elem?-set xs i j v (omega arith) in ground (arith, ih)

-- A function of the entry at `j` after a write.
pub of-get_elem?-set {ℓ κ} :
    {A : Type ℓ} {B : Type κ} (f : Option A → B) (xs : List A) (i j : ℕ) (v : A)
    → i < length xs
    → f (get_elem? (set xs i v) j) ≡ (if i == j then f (some v) else f (get_elem? xs j))
of-get_elem?-set f xs i j v h = elim (Bool-cases (i == j)) [
  | inl same ↦ rw same (ap f {y = some v} (get_elem?-set xs i j v h ∙ rw same refl))
  | inr other ↦ rw other (ap f {y = get_elem? xs j} (get_elem?-set xs i j v h ∙ rw other refl))
]

pub get_elem?-inside {ℓ} :
    {A : Type ℓ} (xs : List A) (i : ℕ) (v : A) → get_elem? xs i ≡ some v → i < length xs
get_elem?-inside [] i v h = absurd (ground arith)
get_elem?-inside (x ∷ xs) zero v h = omega arith
get_elem?-inside (x ∷ xs) (suc i) v h = omega (arith, get_elem?-inside xs i v h)

pub get_elem?-replicate {ℓ} :
    {A : Type ℓ} (k i : ℕ) (a : A) → i < k → get_elem? (replicate k a) i ≡ some a
get_elem?-replicate zero i a h = absurd (omega arith)
get_elem?-replicate (suc k) zero a h = refl
get_elem?-replicate (suc k) (suc i) a h = get_elem?-replicate k i a (omega arith)

pub get_elem?-front {ℓ} :
    {A : Type ℓ} (xs ys : List A) (n i : ℕ)
    → i < n
    → n ≤ length xs
    → get_elem? (take n xs ++ ys) i ≡ get_elem? xs i
get_elem?-front xs ys zero i h k = absurd (omega arith)
get_elem?-front [] ys (suc n) i h k = absurd (omega arith)
get_elem?-front (x ∷ xs) ys (suc n) zero h k = refl
get_elem?-front (x ∷ xs) ys (suc n) (suc i) h k =
    get_elem?-front xs ys n i (omega arith) (omega arith)

pub get_elem?-behind {ℓ} :
    {A : Type ℓ} (xs ys : List A) (n i : ℕ)
    → n ≤ length xs
    → get_elem? (take n xs ++ ys) (n + i) ≡ get_elem? ys i
get_elem?-behind xs ys zero i k = ap (get_elem? ys) (omega arith)
get_elem?-behind [] ys (suc n) i k = absurd (omega arith)
get_elem?-behind (x ∷ xs) ys (suc n) i k =
    let e : suc n + i ≡ suc (n + i) = omega arith in rw e (get_elem?-behind xs ys n i (omega arith))

pub get_elem?-take {ℓ} :
    {A : Type ℓ} (xs : List A) (n i : ℕ) → i < n → get_elem? (take n xs) i ≡ get_elem? xs i
get_elem?-take xs zero i h = absurd (omega arith)
get_elem?-take [] (suc n) i h = refl
get_elem?-take (x ∷ xs) (suc n) zero h = refl
get_elem?-take (x ∷ xs) (suc n) (suc i) h = get_elem?-take xs n i (omega arith)

pub get_elem?-drop {ℓ} :
    {A : Type ℓ} (xs : List A) (n i : ℕ) → get_elem? (drop n xs) i ≡ get_elem? xs (n + i)
get_elem?-drop xs zero i = ap (get_elem? xs) (omega arith)
get_elem?-drop [] (suc n) i = refl
get_elem?-drop (x ∷ xs) (suc n) i =
    let e : suc n + i ≡ suc (n + i) = omega arith in rw e (get_elem?-drop xs n i)
