-- ===== src/Prelude/Bits.antt =====
-- The bit operations of the native numbers at variables: the laws of a set of flags that is kept
-- in an `int`, tested by `&`, raised by `|` and lowered by a subtraction.
use Prim.Native.Nat.{max, digits, bit_and, bit_or, bit_and-bitwise, bit_or-bitwise}
use Prim.Native.Nat.{ℕ, zero, suc, ◌+◌, ◌-◌, ◌*◌, ◌/◌, ◌%◌, ◌≤◌, min}
use mathlib.Core.Path.{◌≡◌, refl}
use native.Mathlib.Nat.{le_refl}
use native.Mathlib.Omega.{arith}

-- The digit recursion does not depend on its count of rounds, once that is at least `a`.
more_rounds :
    (base : ℕ → ℕ) (op : ℕ → ℕ → ℕ) (a b n m : ℕ)
    → a ≤ n
    → a ≤ m
    → digits base op n a b ≡ digits base op m a b
more_rounds base op zero b zero zero p q = refl
more_rounds base op zero b zero (suc m) p q = refl
more_rounds base op zero b (suc n) zero p q = refl
more_rounds base op zero b (suc n) (suc m) p q = refl
more_rounds base op (suc a) b zero m p q = absurd (omega arith)
more_rounds base op (suc a) b (suc n) zero p q = absurd (omega arith)
more_rounds base op (suc a) b (suc n) (suc m) p q =
    rw (more_rounds base op (suc a / 2) (b / 2) n m (omega arith) (omega arith))

pub bit_and_halves : (a b : ℕ) → bit_and a b ≡ bit_and (a / 2) (b / 2) * 2 + min (a % 2) (b % 2)
bit_and_halves zero b = simp bit_and-bitwise (omega arith)
bit_and_halves (suc a) b = simp bit_and-bitwise (
    omega
      (arith, more_rounds (λ y. 0) min (suc a / 2) (b / 2) a (suc a / 2) (omega arith) (le_refl _)))

pub bit_or_halves : (a b : ℕ) → bit_or a b ≡ bit_or (a / 2) (b / 2) * 2 + max (a % 2) (b % 2)
bit_or_halves zero b = simp bit_or-bitwise (omega arith)
bit_or_halves (suc a) b = simp bit_or-bitwise (
    omega
      (arith, more_rounds (λ y. y) max (suc a / 2) (b / 2) a (suc a / 2) (omega arith) (le_refl _)))

-- What `|= f` and a following `-= f` do to the flags: the bits of `f` are raised, then lowered, and
-- bits outside `f` stay.
pub record FlagLaws (a f g : ℕ) : Type 0 where
  pub fits : f ≤ bit_or a f
  pub raised : bit_and (bit_or a f) f ≡ f
  pub lowered : bit_and (bit_or a f - f) f ≡ 0
  pub kept : bit_and f g ≡ 0 → bit_and (bit_or a f) g ≡ bit_and a g
  pub kept_lowered : bit_and f g ≡ 0 → bit_and (bit_or a f - f) g ≡ bit_and a g

module _ (a f g : ℕ) where
  raise_halves :
      bit_and (bit_or a f) g
      ≡ bit_and (bit_or (a / 2) (f / 2)) (g / 2) * 2 + min (max (a % 2) (f % 2)) (g % 2)
  raise_halves =
      let half : bit_or a f / 2 ≡ bit_or (a / 2) (f / 2) = omega (arith, bit_or_halves a f) in
      let low : bit_or a f % 2 ≡ max (a % 2) (f % 2) = omega (arith, bit_or_halves a f) in
      rw (half, low) at (bit_and_halves (bit_or a f) g)

  lower_halves :
      f / 2 ≤ bit_or (a / 2) (f / 2)
      → bit_and (bit_or a f - f) g
        ≡ bit_and (bit_or (a / 2) (f / 2) - f / 2) (g / 2) * 2
          + min (max (a % 2) (f % 2) - f % 2) (g % 2)
  lower_halves fits =
      let half : (bit_or a f - f) / 2 ≡ bit_or (a / 2) (f / 2) - f / 2 =
        omega (arith, bit_or_halves a f) in
      let low : (bit_or a f - f) % 2 ≡ max (a % 2) (f % 2) - f % 2 =
        omega (arith, bit_or_halves a f) in
      rw (half, low) at (bit_and_halves (bit_or a f - f) g)

FlagLaws-below : (n a f g : ℕ) → a ≤ n → f ≤ n → g ≤ n → FlagLaws a f g
FlagLaws-below zero zero zero zero p q r = record {
  fits = omega arith;
  raised = refl;
  lowered = refl;
  kept = λ _. refl;
  kept_lowered = λ _. refl;
}
FlagLaws-below zero (suc a) f g p q r = absurd (omega arith)
FlagLaws-below zero zero (suc f) g p q r = absurd (omega arith)
FlagLaws-below zero zero zero (suc g) p q r = absurd (omega arith)
FlagLaws-below (suc n) a f g p q r =
    let ih = FlagLaws-below n (a / 2) (f / 2) (g / 2) (omega arith) (omega arith) (omega arith) in
    record {
      fits = omega (arith, ih.fits, bit_or_halves a f);
      raised = omega (arith, ih.raised, raise_halves a f f);
      lowered = omega (arith, ih.lowered, lower_halves a f f ih.fits);
      kept = λ d.
          let d' : bit_and (f / 2) (g / 2) ≡ 0 = omega (arith, bit_and_halves f g) in
          omega (arith, ih.kept d', raise_halves a f g, bit_and_halves a g, bit_and_halves f g);
      kept_lowered = λ d.
          let d' : bit_and (f / 2) (g / 2) ≡ 0 = omega (arith, bit_and_halves f g) in
          omega (
            arith,
            ih.kept_lowered d',
            lower_halves a f g ih.fits,
            bit_and_halves a g,
            bit_and_halves f g,
          );
    }

pub flag_laws : (a f g : ℕ) → FlagLaws a f g
flag_laws a f g = FlagLaws-below (a + f + g) a f g (omega arith) (omega arith) (omega arith)
