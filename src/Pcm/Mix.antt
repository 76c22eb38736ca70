-- ===== src/Pcm/Mix.antt =====
-- What roar_mix_pcm of libroardsp/mixer.c leaves: sums that are held within the sample's range.
use native.Mathlib.Nat.{mod-eq_of_lt, mul-le-mul_left}
use roaraudio.Prelude.{
  sym, ◌*◌, ◌/◌, none, ℕ, zero, suc, ◌+◌, ◌-◌, ◌≤◌, ◌<◌, ◌≡◌, refl, ◌∙◌, ap, ap₂, Option, some,
  List, [], ◌∷◌, arith, length, get_elem?, get_elem?_inside,
}
use roaraudio.Prelude.Int.{+ℤ_assoc, +ℤ_comm, ℤ, pos, negsuc, ◌+ℤ◌, pos_part, neg_part}
use roaraudio.Pcm.{
  wrap, Limits, limits8, limits16, limits32, saturate, put_sample, column_sum, mix_loop, mix_pcm,
}

-- `r` is the value in a signed type of `bound` values on each side of 0 that is nearest to `c`.
pub record IsNearest (bound : ℕ) (c r : ℤ) : Type 0 where
  pub low : neg_part r ≤ bound
  pub high : pos_part r < bound
  pub same : neg_part c ≤ bound → pos_part c < bound → r ≡ c
  pub over : bound ≤ pos_part c → r ≡ pos (bound - 1)
  pub under : bound < neg_part c → r ≡ negsuc (bound - 1)

saturate8-IsNearest : (c : ℤ) → IsNearest 128 c (saturate limits8 c)
unfolding saturate
saturate8-IsNearest c = record {
  low = ground arith;
  high = ground arith;
  same = ground arith;
  over = ground arith;
  under = ground arith;
}

saturate16-IsNearest : (c : ℤ) → IsNearest 32768 c (saturate limits16 c)
unfolding saturate
saturate16-IsNearest c = record {
  low = ground arith;
  high = ground arith;
  same = ground arith;
  over = ground arith;
  under = ground arith;
}

-- Two positive samples whose sum has 32 bits: the sum comes out 2 ^ 32 too low.
saturate32-wraps :
    (n : ℕ) → 2147483648 ≤ n → n < 4294967296 → saturate limits32 (pos n) ≡ negsuc (4294967295 - n)
unfolding saturate
saturate32-wraps n h k = ground arith

-- Every input has `n` samples or more.
abbrev pub AllLong : ℕ → List (List ℤ) → Type 0
AllLong n [] = Unit {0}
AllLong n (xs ∷ inputs) = (n ≤ length xs) × AllLong n inputs

-- Every sample of every input has a type with `bound` values on each side of 0.
abbrev pub AllSmall : ℕ → List (List ℤ) → Type 0
AllSmall bound [] = Unit {0}
AllSmall bound (xs ∷ inputs) =
    ((s : ℕ) (x : ℤ) → get_elem? xs s ≡ some x → (neg_part x ≤ bound) × (pos_part x ≤ bound))
    × AllSmall bound inputs

-- The sum of the samples number `s`, of an input that is too short 0.
abbrev pub exact_sum : List (List ℤ) → ℕ → ℤ
exact_sum [] s = pos 0
exact_sum (xs ∷ inputs) s = elim (get_elem? xs s) [
  | none ↦ exact_sum inputs s
  | some x ↦ x +ℤ exact_sum inputs s
]

wrap-small :
    (accumulator : ℕ) (c : ℤ)
    → neg_part c < accumulator / 2
    → pos_part c < accumulator / 2
    → wrap accumulator c ≡ c
wrap-small accumulator (pos n) h k =
    let small = mod-eq_of_lt {n = n} {m = accumulator} (omega arith) in ground arith
wrap-small accumulator (negsuc n) h k =
    let small = mod-eq_of_lt {n = n} {m = accumulator} (omega arith) in ground arith

sum_parts :
    (a b : ℤ)
    → (pos_part (a +ℤ b) ≤ pos_part a + pos_part b) × (neg_part (a +ℤ b) ≤ neg_part a + neg_part b)
unfolding ◌+ℤ◌
sum_parts a b = (ground arith, ground arith)

+ℤ_zero : (c : ℤ) → c +ℤ pos 0 ≡ c
unfolding ◌+ℤ◌
+ℤ_zero (pos n) = ground arith
+ℤ_zero (negsuc n) = ground arith

zero_+ℤ : (c : ℤ) → pos 0 +ℤ c ≡ c
zero_+ℤ c = +ℤ_comm (pos 0) c ∙ +ℤ_zero c

column_sum-step :
    (accumulator : ℕ) (xs : List ℤ) (inputs : List (List ℤ)) (s : ℕ) (c x : ℤ)
    → get_elem? xs s ≡ some x
    → column_sum accumulator (xs ∷ inputs) s c
      ≡ column_sum accumulator inputs s (wrap accumulator (c +ℤ x))
unfolding column_sum
column_sum-step accumulator xs inputs s c x e = rw (e, column_sum) refl

exact_sum-step :
    (xs : List ℤ) (inputs : List (List ℤ)) (s : ℕ) (x : ℤ)
    → get_elem? xs s ≡ some x
    → exact_sum (xs ∷ inputs) s ≡ x +ℤ exact_sum inputs s
exact_sum-step xs inputs s x e = rw (e, exact_sum) refl

-- The accumulator holds the sum where there is room for the samples left.
column_sum_exact :
    (accumulator bound k : ℕ) (inputs : List (List ℤ)) (n s : ℕ) (c : ℤ)
    → AllLong n inputs
    → AllSmall bound inputs
    → s < n
    → pos_part c ≤ bound * k
    → neg_part c ≤ bound * k
    → bound * (k + length inputs) < accumulator / 2
    → column_sum accumulator inputs s c ≡ some (c +ℤ exact_sum inputs s)
unfolding column_sum
column_sum_exact accumulator bound k [] n s c long small h p q room = ap some (sym (+ℤ_zero c))
column_sum_exact accumulator bound k (xs ∷ inputs) n s c long small h p q room =
    let x = get_elem?_inside xs s (omega arith) in
    let b = small.0 s x.0 x.1 in
    let t = sum_parts c x.0 in
    let more : bound * suc k ≡ bound * k + bound = ground arith in
    let rest : bound * (suc k + length inputs) ≡ bound * (k + suc (length inputs)) = ground arith in
    let least : bound * suc k ≤ bound * (suc k + length inputs) =
      mul-le-mul_left bound (omega arith) in
    let same =
      wrap-small accumulator (c +ℤ x.0) (omega (arith, t.0, t.1, b.0, b.1, more, rest, least))
        (omega (arith, t.0, t.1, b.0, b.1, more, rest, least)) in
    column_sum-step accumulator xs inputs s c x.0 x.1
    ∙ ap (column_sum accumulator inputs s) same
    ∙ column_sum_exact accumulator bound (suc k) inputs n s (c +ℤ x.0) long.1 small.1 h
        (omega (arith, t.0, b.1, more)) (omega (arith, t.1, b.0, more)) (omega (arith, rest, room))
    ∙ ap some (+ℤ_assoc c x.0 (exact_sum inputs s))
    ∙ ap (λ e. some (c +ℤ e)) (sym (exact_sum-step xs inputs s x.0 x.1))

-- What the loop leaves from sample number `s` on.
record Mixed (l : Limits) (inputs : List (List ℤ)) (s n : ℕ) (r : Option (List ℤ)) : Type 0 where
  out : List ℤ
  ends : r ≡ some out
  size : length out ≡ n
  sums : (j : ℕ) → j < n → get_elem? out j ≡ some (saturate l (exact_sum inputs (s + j)))

sums_cons :
    (l : Limits) (inputs : List (List ℤ)) (s n : ℕ) (out : List ℤ)
    → ((j : ℕ) → j < n → get_elem? out j ≡ some (saturate l (exact_sum inputs (s + 1 + j))))
    → (j : ℕ) → j < suc n
    → get_elem? (saturate l (exact_sum inputs s) ∷ out) j
      ≡ some (saturate l (exact_sum inputs (s + j)))
sums_cons l inputs s n out rest zero h =
    ap (λ i. some (saturate l (exact_sum inputs i))) (omega arith)
sums_cons l inputs s n out rest (suc j) h =
    rest j (omega arith) ∙ ap (λ i. some (saturate l (exact_sum inputs i))) (omega arith)

mix_loop-Mixed :
    (l : Limits) (bound : ℕ) (inputs : List (List ℤ)) (n s all : ℕ)
    → AllLong all inputs
    → AllSmall bound inputs
    → bound * length inputs < l.accumulator / 2
    → s + n ≤ all
    → Mixed l inputs s n (mix_loop l inputs s n)
unfolding mix_loop
mix_loop-Mixed l bound inputs zero s all long small room h = record {
  out = [];
  ends = refl;
  size = refl;
  sums = λ j k. absurd (omega arith);
}
mix_loop-Mixed l bound inputs (suc n) s all long small room h =
    let c =
      column_sum_exact l.accumulator bound 0 inputs all s (pos 0) long small (omega arith)
        (omega arith) (omega arith)
        (let same : bound * (0 + length inputs) ≡ bound * length inputs = ground arith in
          omega (arith, same, room))
      ∙ ap some (zero_+ℤ (exact_sum inputs s)) in
    let t = mix_loop-Mixed l bound inputs n (s + 1) all long small room (omega arith) in
    record {
      out = saturate l (exact_sum inputs s) ∷ t.out;
      ends = ap₂ (put_sample l) c t.ends;
      size = ap suc t.size;
      sums = λ j k. sums_cons l inputs s n t.out t.sums j k;
    }

-- The sizes of samples that the mixer holds within their range, and how many values they have on each
-- side of 0.
pub data Depth : Type 0 where
  depth8 : Depth
  depth16 : Depth

abbrev pub bits_of : Depth → ℕ
bits_of depth8 = 8
bits_of depth16 = 16

abbrev pub side_of : Depth → ℕ
side_of depth8 = 128
side_of depth16 = 32768

-- What stands in the output: the sum of the inputs, held within `bound`.
abbrev pub Sums : ℕ → List (List ℤ) → List ℤ → ℕ → Type 0
Sums bound inputs out s =
    (r : ℤ) × (get_elem? out s ≡ some r) × IsNearest bound (exact_sum inputs s) r

-- `roar_mix_pcm` of 8 or 16 bits, of up to 65535 inputs of `samples` samples or more of that size: it
-- succeeds, and each of its `samples` samples is the value of the sample's type that is nearest to the
-- exact sum of the inputs' samples; the accumulator does not overflow.
pub mix_pcm-IsNearest :
    (w : Depth) (inputs : List (List ℤ)) (samples : ℕ)
    → AllLong samples inputs
    → AllSmall (side_of w) inputs
    → length inputs < 65536
    → (out : List ℤ) × (mix_pcm (bits_of w) inputs samples ≡ some out)
      × (length out ≡ samples)
      × ((s : ℕ) → s < samples → Sums (side_of w) inputs out s)
unfolding mix_pcm
mix_pcm-IsNearest depth8 inputs samples long small few =
    let t =
      mix_loop-Mixed limits8 128 inputs samples 0 samples long small (omega arith) (omega arith) in
    (
      t.out,
      t.ends,
      t.size,
      λ s h. (
        saturate limits8 (exact_sum inputs s),
        t.sums s h ∙ ap (λ i. some (saturate limits8 (exact_sum inputs i))) (omega arith),
        saturate8-IsNearest (exact_sum inputs s),
      ),
    )
mix_pcm-IsNearest depth16 inputs samples long small few =
    let t =
      mix_loop-Mixed limits16 32768 inputs samples 0 samples long small (omega arith)
        (omega arith) in
    (
      t.out,
      t.ends,
      t.size,
      λ s h. (
        saturate limits16 (exact_sum inputs s),
        t.sums s h ∙ ap (λ i. some (saturate limits16 (exact_sum inputs i))) (omega arith),
        saturate16-IsNearest (exact_sum inputs s),
      ),
    )

-- `roar_mix_pcm` of 32 bits does not hold a sum of two positive samples within the range: where it
-- exceeds 2147483647, the output is the sum less 2 ^ 32, which is negative.
pub mix_pcm-wraps :
    (x y : ℕ)
    → x < 2147483648
    → y < 2147483648
    → 2147483648 ≤ x + y
    → mix_pcm 32 ((pos x ∷ []) ∷ (pos y ∷ []) ∷ []) 1 ≡ some (negsuc (4294967295 - (x + y)) ∷ [])
unfolding mix_pcm mix_loop column_sum ◌+ℤ◌
mix_pcm-wraps x y h k past =
    let first : wrap 18446744073709551616 (pos 0 +ℤ pos x) ≡ pos x =
      ap (wrap 18446744073709551616) (zero_+ℤ (pos x))
      ∙ wrap-small 18446744073709551616 (pos x) (omega arith) (omega arith) in
    let sum : pos x +ℤ pos y ≡ pos (x + y) = ground arith in
    let second : wrap 18446744073709551616 (pos x +ℤ pos y) ≡ pos (x + y) =
      ap (wrap 18446744073709551616) sum
      ∙ wrap-small 18446744073709551616 (pos (x + y)) (omega arith) (omega arith) in
    let both : wrap 18446744073709551616 (wrap 18446744073709551616 (pos 0 +ℤ pos x) +ℤ pos y)
        ≡ pos (x + y) =
      ap (λ c. wrap 18446744073709551616 (c +ℤ pos y)) first ∙ second in
    ap (λ c. some (saturate limits32 c ∷ [])) both
    ∙ ap (λ r. some (r ∷ [])) (saturate32-wraps (x + y) past (omega arith))
