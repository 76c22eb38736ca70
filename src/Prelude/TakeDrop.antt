-- ===== src/Prelude/TakeDrop.antt =====
-- How `take` and `drop` meet `++` and one another.
use roaraudio.Prelude.{
  ℕ, zero, suc, ◌+◌, ◌≤◌, ◌≡◌, refl, sym, ap, List, [], ◌∷◌, ◌++◌, arith, length, take, drop,
}

pub take-append {ℓ} :
    {A : Type ℓ} (xs ys : List A) (n : ℕ) → n ≤ length xs → take n (xs ++ ys) ≡ take n xs
take-append xs ys zero h = refl
take-append [] ys (suc n) h = absurd (omega arith)
take-append (x ∷ xs) ys (suc n) h = ap (λ l. x ∷ l) (take-append xs ys n (omega arith))

pub drop-append {ℓ} :
    {A : Type ℓ} (xs ys : List A) (n : ℕ) → n ≤ length xs → drop n (xs ++ ys) ≡ drop n xs ++ ys
drop-append xs ys zero h = refl
drop-append [] ys (suc n) h = absurd (omega arith)
drop-append (x ∷ xs) ys (suc n) h = drop-append xs ys n (omega arith)

pub take_all {ℓ} : {A : Type ℓ} (xs : List A) (n : ℕ) → length xs ≤ n → take n xs ≡ xs
take_all [] zero h = refl
take_all [] (suc n) h = refl
take_all (x ∷ xs) zero h = absurd (omega arith)
take_all (x ∷ xs) (suc n) h = ap (λ l. x ∷ l) (take_all xs n (omega arith))

pub drop_all {ℓ} : {A : Type ℓ} (xs : List A) (n : ℕ) → length xs ≤ n → drop n xs ≡ []
drop_all [] zero h = refl
drop_all [] (suc n) h = refl
drop_all (x ∷ xs) zero h = absurd (omega arith)
drop_all (x ∷ xs) (suc n) h = drop_all xs n (omega arith)

pub drop-append_past {ℓ} :
    {A : Type ℓ} (xs ys : List A) (n m : ℕ) → n ≡ length xs + m → drop n (xs ++ ys) ≡ drop m ys
drop-append_past [] ys n m h = ap (λ k. drop k ys) (omega arith)
drop-append_past (x ∷ xs) ys zero m h = absurd (omega arith)
drop-append_past (x ∷ xs) ys (suc n) m h = drop-append_past xs ys n m (omega arith)

pub take-drop-take {ℓ} :
    {A : Type ℓ} (xs : List A) (off i n : ℕ)
    → i + n ≤ off
    → take n (drop i (take off xs)) ≡ take n (drop i xs)
take-drop-take xs off i zero h = refl
take-drop-take [] zero i (suc n) h = refl
take-drop-take [] (suc off) i (suc n) h = refl
take-drop-take (x ∷ xs) zero i (suc n) h = absurd (omega arith)
take-drop-take (x ∷ xs) (suc off) zero (suc n) h =
    ap (λ l. x ∷ l) (take-drop-take xs off 0 n (omega arith))
take-drop-take (x ∷ xs) (suc off) (suc i) (suc n) h = take-drop-take xs off i (suc n) (omega arith)

pub drop-drop {ℓ} :
    {A : Type ℓ} (xs : List A) (i j k : ℕ) → k ≡ i + j → drop j (drop i xs) ≡ drop k xs
drop-drop xs zero j k e = ap (λ n. drop n xs) (omega arith)
drop-drop [] (suc i) zero zero e = absurd (omega arith)
drop-drop [] (suc i) (suc j) zero e = absurd (omega arith)
drop-drop [] (suc i) zero (suc k) e = refl
drop-drop [] (suc i) (suc j) (suc k) e = refl
drop-drop (x ∷ xs) (suc i) j zero e = absurd (omega arith)
drop-drop (x ∷ xs) (suc i) j (suc k) e = drop-drop xs i j k (omega arith)

pub take-append_past {ℓ} :
    {A : Type ℓ} (xs ys : List A) (n m : ℕ)
    → n ≡ length xs + m
    → take n (xs ++ ys) ≡ xs ++ take m ys
take-append_past [] ys n m h = ap (λ k. take k ys) (omega arith)
take-append_past (x ∷ xs) ys zero m h = absurd (omega arith)
take-append_past (x ∷ xs) ys (suc n) m h =
    ap (λ l. x ∷ l) (take-append_past xs ys n m (omega arith))

pub take-take {ℓ} : {A : Type ℓ} (xs : List A) (n m : ℕ) → n ≤ m → take n (take m xs) ≡ take n xs
take-take xs zero m h = refl
take-take xs (suc n) zero h = absurd (omega arith)
take-take [] (suc n) (suc m) h = refl
take-take (x ∷ xs) (suc n) (suc m) h = ap (λ l. x ∷ l) (take-take xs n m (omega arith))

take-nil {ℓ} : {A : Type ℓ} (n : ℕ) → ◌≡◌ {A = List A} (take n []) []
take-nil zero = refl
take-nil (suc n) = refl

-- `k` is what of the first `m` is left behind the first `n`.
pub drop-take {ℓ} :
    {A : Type ℓ} (xs : List A) (n m k : ℕ) → m ≡ n + k → drop n (take m xs) ≡ take k (drop n xs)
drop-take xs zero m k e = ap (λ j. take j xs) (omega arith)
drop-take xs (suc n) zero k e = absurd (omega arith)
drop-take [] (suc n) (suc m) k e = sym (take-nil k)
drop-take (x ∷ xs) (suc n) (suc m) k e = drop-take xs n m k (omega arith)
