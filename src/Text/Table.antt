-- ===== src/Text/Table.antt =====
-- Tables of numbers and names, searched from the first entry on.
use roaraudio.Prelude.{
  ℕ, ◌≡◌, refl, ap, Bool, true, false, Option, none, some, List, [], ◌∷◌, ◌==◌, ◌&&◌, if◌then◌else◌,
  arith,
}
use roaraudio.Text.{Chars, same_text}

abbrev pub Names : Type 0
Names = List (ℕ × Chars)

-- The name of the first entry with this number.
abbrev pub name_of : Names → ℕ → Option Chars
name_of [] n = none
name_of ((m, s) ∷ t) n = if m == n then some s else name_of t n

-- The number of the first entry whose name is the same.
abbrev pub number_of : (same : Chars → Chars → Bool) → Names → Chars → Option ℕ
number_of same [] s = none
number_of same ((m, r) ∷ t) s = if same r s then some m else number_of same t s

abbrev pub is_number : Option ℕ → ℕ → Bool
is_number none n = false
is_number (some m) n = m == n

abbrev pub is_name : Option Chars → Chars → Bool
is_name none s = false
is_name (some r) s = same_text r s

module _ (same : Chars → Chars → Bool) (whole : Names) where
  -- Each name of the table leads to its own number.
  abbrev pub named_once : Names → Bool
  named_once [] = true
  named_once ((m, s) ∷ t) = is_number (number_of same whole s) m && named_once t

  -- Each number of the table leads to its own name.
  abbrev pub numbered_once : Names → Bool
  numbered_once [] = true
  numbered_once ((m, s) ∷ t) = is_name (name_of whole m) s && numbered_once t

pub same_text-eq : (r s : Chars) → same_text r s ≡ true → r ≡ s
same_text-eq [] [] h = refl
same_text-eq [] (d ∷ ds) h = absurd (ground arith)
same_text-eq (c ∷ cs) [] h = absurd (ground arith)
same_text-eq (c ∷ cs) (d ∷ ds) h = ground (arith, same_text-eq cs ds)

is_number_lem : (o : Option ℕ) (n : ℕ) → is_number o n ≡ true → o ≡ some n
is_number_lem none n h = absurd (ground arith)
is_number_lem (some m) n h = ground arith

is_name_lem : (o : Option Chars) (s : Chars) → is_name o s ≡ true → o ≡ some s
is_name_lem none s h = absurd (ground arith)
is_name_lem (some r) s h = ap some (same_text-eq r s h)

and_left : (a b : Bool) → (a && b) ≡ true → a ≡ true
and_left a b h = ground arith

and_right : (a b : Bool) → (a && b) ≡ true → b ≡ true
and_right a b h = ground arith

module _ (same : Chars → Chars → Bool) (whole : Names) where
  pub number_of-name_of :
      (t : Names) (n : ℕ) (s : Chars)
      → named_once same whole t ≡ true
      → name_of t n ≡ some s
      → number_of same whole s ≡ some n
  number_of-name_of [] n s once found = absurd (ground arith)
  number_of-name_of ((m, r) ∷ t) n s once found =
      let here = is_number_lem (number_of same whole r) m (and_left _ _ once) in
      let ih : name_of t n ≡ some s → number_of same whole s ≡ some n =
        number_of-name_of t n s
          (and_right (is_number (number_of same whole r) m) (named_once same whole t) once) in
      ground (arith, here, ih)

pub name_of-number_of :
    (whole t : Names) (n : ℕ) (s : Chars)
    → numbered_once same_text whole t ≡ true
    → number_of same_text t s ≡ some n
    → name_of whole n ≡ some s
name_of-number_of whole [] n s once found = absurd (ground arith)
name_of-number_of whole ((m, r) ∷ t) n s once found =
    let here = is_name_lem (name_of whole m) r (and_left _ _ once) in
    let ih : number_of same_text t s ≡ some n → name_of whole n ≡ some s =
      name_of-number_of whole t n s
        (and_right (is_name (name_of whole m) r) (numbered_once same_text whole t) once) in
    ground (arith, here, ih, same_text-eq r s)
