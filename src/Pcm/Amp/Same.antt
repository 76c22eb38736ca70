-- ===== src/Pcm/Amp/Same.antt =====
-- roar_amp_pcm of libroardsp/amp.c with settings for which need_vol_change of roard/mixer.c returns 0.
use native.Mathlib.Nat.{mul-div_cancel, mod-eq_of_lt, mod-lt, mul-le-mul_right, zero-lt-suc}
use roaraudio.Prelude.{
  ◌≢◌, ◌⊎◌, inl, inr, sym, ◌∙◌, Option, none, Bool, Option-cases, ℕ, zero, suc, ◌+◌, ◌-◌, ◌*◌, ◌/◌,
  ◌%◌, ◌≤◌, ◌<◌, ◌≡◌, refl, ap, true, false, some, List, [], ◌∷◌, ◌==◌, get_elem?, length, arith,
}
use roaraudio.Prelude.Int.{ℤ, pos, negsuc, ◌*ℤ◌, pos_part, neg_part}
use roaraudio.Pcm.{wrap}
use roaraudio.Pcm.Amp.{
  MixerSettings, quotient, gain, amp_sample, channel_of, amp_loop, amped, loop_result, amp_pcm,
  any_differs, need_vol_change,
}

-- A signed number of a type with `bound` values on each side of 0.
abbrev pub InBound : ℕ → ℤ → Type 0
InBound bound x = (neg_part x ≤ bound) × (pos_part x < bound)

abbrev pub AllInBound : ℕ → List ℤ → Type 0
AllInBound bound [] = Unit {0}
AllInBound bound (x ∷ xs) = InBound bound x × AllInBound bound xs

mul_below : (a b k : ℕ) → a ≤ b → a * k ≤ b * k
mul_below a b k h = mul-le-mul_right k h

any-channel :
    (scale : ℕ) (mixer : List ℕ) (n j : ℕ)
    → any_differs scale mixer n ≡ some false
    → j < n
    → get_elem? mixer j ≡ some scale
unfolding any_differs
any-channel scale mixer zero j h k = ground arith
any-channel scale [] (suc n) j h k = ground arith
any-channel scale (m ∷ mixer) (suc n) zero h k = ground arith
any-channel scale (m ∷ mixer) (suc n) (suc j) h k =
    let ih = any-channel scale mixer n j in ground arith

quotient_pos : (n d : ℕ) → quotient (pos (n * suc d)) (suc d) ≡ some (pos n)
quotient_pos n d = ap (λ q. some (pos q)) (mul-div_cancel n (zero-lt-suc d))

product_pos : (n d : ℕ) → pos n *ℤ pos (suc d) ≡ pos (n * suc d)
unfolding ◌*ℤ◌
product_pos n d = ground arith

product_neg : (n d : ℕ) → negsuc n *ℤ pos (suc d) ≡ negsuc (suc n * suc d - 1)
unfolding ◌*ℤ◌
product_neg n d = ground arith

wrap_pos : (modulus n : ℕ) → n < modulus / 2 → wrap modulus (pos n) ≡ pos n
wrap_pos modulus n h = let small = mod-eq_of_lt {n = n} {m = modulus} (omega arith) in ground arith

wrap_neg : (modulus n : ℕ) → n < modulus / 2 → wrap modulus (negsuc n) ≡ negsuc n
wrap_neg modulus n h = let small = mod-eq_of_lt {n = n} {m = modulus} (omega arith) in ground arith

product_in :
    (x : ℤ) (bound d accumulator : ℕ)
    → InBound bound x
    → bound * suc d < accumulator / 2
    → wrap accumulator (x *ℤ pos (suc d)) ≡ x *ℤ pos (suc d)
product_in (pos n) bound d accumulator h k =
    let below = mul_below n bound (suc d) (omega arith) in
    let here = wrap_pos accumulator (n * suc d) (omega arith) in rw (product_pos n d, here) refl
product_in (negsuc n) bound d accumulator h k =
    let below = mul_below (suc n) bound (suc d) (omega arith) in
    let here = wrap_neg accumulator (suc n * suc d - 1) (omega arith) in
    rw (product_neg n d, here) refl

quotient_product : (x : ℤ) (d : ℕ) → quotient (x *ℤ pos (suc d)) (suc d) ≡ some x
quotient_product (pos n) d = rw (product_pos n d, mul-div_cancel n (zero-lt-suc d)) refl
quotient_product (negsuc n) d =
    let q = mul-div_cancel (suc n) (zero-lt-suc d) in rw (product_neg n d) ground arith

-- a number of the type is converted to itself
wrap_self : (modulus bound : ℕ) (x : ℤ) → InBound bound x → bound ≤ modulus / 2 → wrap modulus x ≡ x
wrap_self modulus bound (pos n) h k = wrap_pos modulus n (omega arith)
wrap_self modulus bound (negsuc n) h k = wrap_neg modulus n (omega arith)

amp_sample-same :
    (accumulator bound scale : ℕ) (x : ℤ)
    → InBound bound x
    → 0 < scale
    → bound * scale < accumulator / 2
    → amp_sample accumulator scale x (some (pos scale)) ≡ some x
amp_sample-same accumulator bound zero x h some_scale k = absurd (omega arith)
amp_sample-same accumulator bound (suc d) x h some_scale k =
    rw (product_in x bound d accumulator h k) (quotient_product x d)

need_vol_change-gain :
    (channels : ℕ) (set : MixerSettings)
    → need_vol_change channels set ≡ some false
    → (set.rpg_mul == set.rpg_div) ≡ true
unfolding need_vol_change
need_vol_change-gain channels set h = ground arith

need_vol_change-some :
    (channels : ℕ) (set : MixerSettings) → need_vol_change channels set ≡ some false → 0 < channels
unfolding need_vol_change
need_vol_change-some channels set h = ground arith

need_vol_change-few :
    (channels : ℕ) (set : MixerSettings) → need_vol_change channels set ≡ some false → channels ≤ 64
unfolding need_vol_change
need_vol_change-few channels set h = ground arith

need_vol_change-mixer :
    (channels : ℕ) (set : MixerSettings)
    → need_vol_change channels set ≡ some false
    → any_differs set.scale set.mixer channels ≡ some false
unfolding need_vol_change
need_vol_change-mixer channels set h = ground arith

gain-same :
    (set : MixerSettings) (i c : ℕ)
    → need_vol_change (suc c) set ≡ some false
    → gain set (channel_of i (suc c) set.mixer) ≡ some (pos set.scale)
gain-same set i c h =
    let same = need_vol_change-mixer (suc c) set h in
    rw
      (
        any-channel set.scale set.mixer (suc c) (i % suc c) same (mod-lt i (zero-lt-suc c)),
        need_vol_change-gain (suc c) set h,
      )
      refl

amp_loop-same :
    (modulus accumulator bound : ℕ) (input : List ℤ) (i c : ℕ) (set : MixerSettings)
    → bound ≤ modulus / 2
    → bound * set.scale < accumulator / 2
    → AllInBound bound input
    → 0 < set.scale
    → need_vol_change (suc c) set ≡ some false
    → amp_loop modulus accumulator input i (length input) (suc c) set ≡ some input
unfolding amp_loop
amp_loop-same modulus accumulator bound [] i c set fits room range some_scale off = refl
amp_loop-same modulus accumulator bound (x ∷ xs) i c set fits room range some_scale off =
    rw
      (
        amp_loop-same modulus accumulator bound xs (i + 1) c set fits room range.1 some_scale off,
        gain-same set i c off,
        amp_sample-same accumulator bound set.scale x range.0 some_scale room,
        wrap_self modulus bound x range.0 fits,
      )
      refl

need_vol_change-none : (set : MixerSettings) → ¬ (need_vol_change 0 set ≡ some false)
unfolding need_vol_change
need_vol_change-none set h = ground arith

-- the three types of a sample, and how many values they have on each side of 0
pub data SampleType : Type 0 where
  int8 : SampleType
  int16 : SampleType
  int32 : SampleType

abbrev pub width : SampleType → ℕ
width int8 = 8
width int16 = 16
width int32 = 32

abbrev pub side : SampleType → ℕ
side int8 = 128
side int16 = 32768
side int32 = 2147483648

-- With settings for which need_vol_change returns 0, roar_amp_pcm writes its input.
amp_pcm_off :
    (type : SampleType) (input : List ℤ) (channels : ℕ) (set : MixerSettings)
    → AllInBound (side type) input
    → 0 < set.scale
    → set.scale < 65536
    → need_vol_change channels set ≡ some false
    → amp_pcm (width type) input (length input) channels set ≡ amped input
unfolding amp_pcm
amp_pcm_off type input zero set range some_scale below h = absurd (need_vol_change-none set h)
amp_pcm_off int8 input (suc c) set range some_scale below h =
    ap loop_result (
      amp_loop-same 256 4294967296 128 input 0 c set (omega arith) (omega arith) range some_scale h)
amp_pcm_off int16 input (suc c) set range some_scale below h = ap loop_result (
    amp_loop-same 65536 4294967296 32768 input 0 c set (omega arith) (omega arith) range some_scale
      h)
amp_pcm_off int32 input (suc c) set range some_scale below h = ap loop_result (
    amp_loop-same 4294967296 18446744073709551616 2147483648 input 0 c set (omega arith)
      (omega arith) range some_scale h)

-- Without replay gain, and with the volume `scale` for each of 1 to 64 channels.
pub record IsFull (channels : ℕ) (set : MixerSettings) : Type 0 where
  pub some_channels : 0 < channels
  pub few_channels : channels ≤ 64
  pub no_gain : set.rpg_mul ≡ set.rpg_div
  pub volumes : (j : ℕ) → j < channels → get_elem? set.mixer j ≡ some set.scale

any_differs-full :
    (scale : ℕ) (mixer : List ℕ) (n : ℕ)
    → ((j : ℕ) → j < n → get_elem? mixer j ≡ some scale)
    → any_differs scale mixer n ≡ some false
unfolding any_differs
any_differs-full scale mixer zero h = refl
any_differs-full scale [] (suc n) h = let e = h 0 (omega arith) in absurd (ground arith)
any_differs-full scale (m ∷ mixer) (suc n) h =
    let e = h 0 (omega arith) in
    let ih = any_differs-full scale mixer n (λ j k. h (suc j) (omega arith)) in ground arith

need_vol_change-full :
    (channels : ℕ) (set : MixerSettings)
    → IsFull channels set
    → need_vol_change channels set ≡ some false
unfolding need_vol_change
need_vol_change-full channels set full =
    let a = full.some_channels in
    let b = full.few_channels in
    let c = full.no_gain in
    let d = any_differs-full set.scale set.mixer channels full.volumes in ground arith

full_lem :
    (channels : ℕ) (set : MixerSettings)
    → need_vol_change channels set ≡ some false
    → IsFull channels set
full_lem channels set h = record {
  some_channels = need_vol_change-some channels set h;
  few_channels = need_vol_change-few channels set h;
  no_gain = let e = need_vol_change-gain channels set h in ground arith;
  volumes =
      λ j k. any-channel set.scale set.mixer channels j (need_vol_change-mixer channels set h) k;
}

-- `need_vol_change` returns 0 exactly for 1 to 64 channels without replay gain that all have the volume
-- `scale`. With such settings, and a 16 bit scale that is not 0, `roar_amp_pcm` writes for samples of 8,
-- 16 or 32 bits exactly its input: leaving it out changes nothing.
pub amp_pcm-same :
    (type : SampleType) (input : List ℤ) (channels : ℕ) (set : MixerSettings)
    → AllInBound (side type) input
    → 0 < set.scale
    → set.scale < 65536
    → ((need_vol_change channels set ≡ some false)
        × IsFull channels set
        × (amp_pcm (width type) input (length input) channels set ≡ amped input))
      ⊎ ((need_vol_change channels set ≢ some false) × ¬ IsFull channels set)
amp_pcm-same type input channels set range some_scale below =
    elim (Option-cases (need_vol_change channels set)) [
      | inl gone ↦ inr (other none gone (λ e. absurd (ground arith)))
      | inr (true, e) ↦ inr (other (some true) e (λ e. absurd (ground arith)))
      | inr (false, e) ↦
          inl (
            e,
            full_lem channels set e,
            amp_pcm_off type input channels set range some_scale below e,
          )
    ]
  where
    other :
        (r : Option Bool)
        → need_vol_change channels set ≡ r
        → r ≢ some false
        → (need_vol_change channels set ≢ some false) × ¬ IsFull channels set
    other r e n =
        ((λ h. n (sym e ∙ h)), (λ full. n (sym e ∙ need_vol_change-full channels set full)))
