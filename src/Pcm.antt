-- ===== src/Pcm.antt =====
-- libroardsp/mixer.c: the sum of several streams of samples, and libroardsp/midside.c, which turns
-- left and right into mid and side. A sample is an integer. The accumulators of mixer.c wrap around
-- where they overflow. The sums of midside.c are of samples of 8 or 16 bits and do not.
-- ROAR_NATIVE_INT64 is taken to be defined.
pub mod Mix
pub mod MidSide
pub mod Amp
mod Tests
use roaraudio.Prelude.{
  ℕ, zero, suc, ◌+◌, ◌-◌, ◌/◌, ◌%◌, ◌^◌, ◌≡◌, Bool, true, false, Option, none, some, List, [], ◌∷◌,
  ◌==◌, ltb, leb, if◌then◌else◌, get_elem?,
}
use roaraudio.Prelude.Int.{ℤ, pos, negsuc, ◌+ℤ◌, ◌-ℤ◌, ltb_ℤ, sub_ℕ}

-- The conversion to a signed type of which `modulus` values exist, by the wrap-around that
-- compilers give it.
abbrev pub wrap : ℕ → ℤ → ℤ
wrap modulus (pos n) =
    if ltb (n % modulus) (modulus / 2)
    then pos (n % modulus)
    else negsuc (modulus - n % modulus - 1)
wrap modulus (negsuc n) =
    if ltb (n % modulus) (modulus / 2)
    then negsuc (n % modulus)
    else pos (modulus - n % modulus - 1)

-- The numbers of the three mixing loops: the number of values of the accumulator's type and of the
-- samples' type, the sum above which `top` is stored, and the sum below which `bottom` is.
pub record Limits : Type 0 where
  pub accumulator : ℕ
  pub modulus : ℕ
  pub above : ℤ
  pub top : ℤ
  pub bottom : ℤ

abbrev pub limits8 : Limits
limits8 = record {
  accumulator = 4294967296;
  modulus = 256;
  above = pos 127;
  top = pos 127;
  bottom = negsuc 127;
}

abbrev pub limits16 : Limits
limits16 = record {
  accumulator = 4294967296;
  modulus = 65536;
  above = pos 32767;
  top = pos 32767;
  bottom = negsuc 32767;
}

abbrev pub limits32 : Limits
limits32 = record {
  accumulator = 18446744073709551616;
  modulus = 4294967296;
  above = pos 21474836487;
  top = pos 2147483647;
  bottom = negsuc 2147483647;
}

-- The test of the sum `c`, and the conversion where it is stored.
unfoldable pub saturate : Limits → ℤ → ℤ
saturate l c =
    if ltb_ℤ l.above c
    then wrap l.modulus l.top
    else if ltb_ℤ c l.bottom
    then wrap l.modulus l.bottom
    else wrap l.modulus c

-- `c += input[i][s]` for every input, from `c` on; `none` is a read past the end of an input.
pub column_sum : (accumulator : ℕ) → List (List ℤ) → ℕ → ℤ → Option ℤ
column_sum accumulator [] s c = some c
column_sum accumulator (xs ∷ inputs) s c = elim (get_elem? xs s) [
  | none ↦ none
  | some x ↦ column_sum accumulator inputs s (wrap accumulator (c +ℤ x))
]

abbrev pub put_sample : Limits → Option ℤ → Option (List ℤ) → Option (List ℤ)
put_sample l none out = none
put_sample l (some c) none = none
put_sample l (some c) (some out) = some (saturate l c ∷ out)

-- The loop over the samples, `n` of them from number `s` on.
pub mix_loop : Limits → List (List ℤ) → (s n : ℕ) → Option (List ℤ)
unfolding column_sum
mix_loop l inputs s zero = some []
mix_loop l inputs s (suc n) =
    put_sample l (column_sum l.accumulator inputs s (pos 0)) (mix_loop l inputs (s + 1) n)

-- `roar_mix_pcm` and the four functions that it calls: what they leave in `output`, `none` for -1.
unfoldable pub mix_pcm : (bits : ℕ) → List (List ℤ) → (samples : ℕ) → Option (List ℤ)
unfolding mix_loop
mix_pcm bits inputs samples =
    if bits == 8
    then mix_loop limits8 inputs 0 samples
    else if bits == 16
    then mix_loop limits16 inputs 0 samples
    else if bits == 32
    then mix_loop limits32 inputs 0 samples
    else none

-- C's division by 2, which rounds to 0.
abbrev pub half : ℤ → ℤ
half (pos n) = pos (n / 2)
half (negsuc n) = sub_ℕ 0 (suc n / 2)

abbrev pub put_pair : ℤ → ℤ → Option (List ℤ) → Option (List ℤ)
put_pair x y none = none
put_pair x y (some out) = some (x ∷ y ∷ out)

-- `roar_conv_s2ms_8` and `roar_conv_s2ms_16`: the loop takes the samples in pairs. A single sample at
-- the end would be read with the one behind it, which is a read past the end: `none`.
pub s2ms : (modulus : ℕ) → List ℤ → Option (List ℤ)
s2ms modulus [] = some []
s2ms modulus (left ∷ []) = none
s2ms modulus (left ∷ right ∷ rest) =
    put_pair (wrap modulus (half (left +ℤ right))) (wrap modulus (half (left -ℤ right)))
      (s2ms modulus rest)

-- `roar_conv_ms2s_8` and `roar_conv_ms2s_16`
pub ms2s : (modulus : ℕ) → List ℤ → Option (List ℤ)
ms2s modulus [] = some []
ms2s modulus (mid ∷ []) = none
ms2s modulus (mid ∷ side ∷ rest) =
    put_pair (wrap modulus (mid +ℤ side)) (wrap modulus (mid -ℤ side)) (ms2s modulus rest)
