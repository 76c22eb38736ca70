-- ===== src/Convert/Chans/Back.antt =====
-- roar_conv_chans of libroardsp/convert.c from one channel to several and back.
use native.Mathlib.Nat.{
  mul-add-div, div-eq_of_lt, mul-div_cancel, mul-le-mul_right, mul-le-mul_left, div-lt_iff_lt-mul,
  div-le_self, zero-lt-suc,
}
use roaraudio.Prelude.{
  ℕ, zero, suc, ◌+◌, ◌-◌, ◌*◌, ◌/◌, ◌^◌, ◌≤◌, ◌<◌, ◌≡◌, inl, inr, refl, sym, ◌∙◌, ap, ==-ne, List,
  [], ◌∷◌, arith, length, take, drop,
}
use roaraudio.Prelude.TakeDrop.{take-take, drop-take, drop-drop}
use roaraudio.Prelude.Int.{ℤ, pos, negsuc, ◌+ℤ◌, sub_ℕ, pos_part, neg_part}
use roaraudio.Memory.{slice, length-slice, SameOutside-trans}
use roaraudio.Status.{ok}
use roaraudio.Meta.{Run, done, exited, fault, and_then}
use roaraudio.Pcm.{wrap}
use roaraudio.Convert.{Block, down, move}
use roaraudio.Convert.Loops.{IsConverted, move_sample, down_lem, up_all, rows, SameOutside-widen}
use roaraudio.Convert.Undo.{IsBytes, IsBytes-slice, MayWiden, IsRestored}
use roaraudio.Convert.Chans.{
  signed, stored, sum_samples, divide, mean, chans_1ton, chans_nto1, conv_chans,
}

-- Two loops, one in the other, are one loop over all rounds.
and_then-cong :
    {A B : Type 0} (r : Run A) (f g : A → Run B)
    → ((a : A) → f a ≡ g a)
    → and_then r f ≡ and_then r g
and_then-cong (done a) f g h = h a
and_then-cong exited f g h = refl
and_then-cong fault f g h = refl

and_then_assoc :
    {A B C : Type 0} (r : Run A) (f : A → Run B) (g : B → Run C)
    → and_then (and_then r f) g ≡ and_then r (λ a. and_then (f a) g)
and_then_assoc (done a) f g = refl
and_then_assoc exited f g = refl
and_then_assoc fault f g = refl

down-add :
    (step : ℕ → Block → Run Block) (a b : ℕ) (mem : Block)
    → down step (a + b) mem ≡ and_then (down (λ c. step (a + c)) b mem) (down step a)
unfolding down
down-add step a zero mem = let e : a + 0 ≡ a = omega arith in rw e refl
down-add step a (suc b) mem =
    let e : a + suc b ≡ suc (a + b) = omega arith in
    rw e (
      and_then-cong (step (a + b) mem) _ _ (down-add step a b)
      ∙ sym (and_then_assoc (step (a + b) mem) (down (λ c. step (a + c)) b) (down step a)))

down-cong :
    (s t : ℕ → Block → Run Block) (n : ℕ) (mem : Block)
    → ((c : ℕ) (m : Block) → c < n → s c m ≡ t c m)
    → down s n mem ≡ down t n mem
unfolding down
down-cong s t zero mem h = refl
down-cong s t (suc n) mem h =
    rw (h n mem (omega arith))
      (and_then-cong (t n mem) _ _ (λ m. down-cong s t n m (λ c m' k. h c m' (omega arith))))

down-down :
    (step : ℕ → ℕ → Block → Run Block) (flat : ℕ → Block → Run Block) (to n : ℕ) (mem : Block)
    → ((i c : ℕ) (m : Block) → c < to → step i c m ≡ flat (i * to + c) m)
    → down (λ i. down (step i) to) n mem ≡ down flat (n * to) mem
unfolding down
down-down step flat to zero mem h = let e : 0 * to ≡ 0 = omega arith in rw e refl
down-down step flat to (suc n) mem h =
    let e : suc n * to ≡ n * to + to = omega arith in
    rw (e, down-add flat (n * to) to mem)
      (ap (λ r. and_then r (down (λ i. down (step i) to) n))
          (down-cong (step n) (λ c. flat (n * to + c)) to mem (λ c m k. h n c m k))
        ∙ and_then-cong _ _ _ (λ m. down-down step flat to n m h))

-- the sum of `c` samples that are all `z`
sum_copies : (c : ℕ) (s z : ℤ) → ℤ
sum_copies zero s z = s
sum_copies (suc c) s z = sum_copies c (wrap (2 ^ 32) (s +ℤ z)) z

take-slice : (mem : Block) (p n m : ℕ) → n ≤ m → take n (slice mem p m) ≡ slice mem p n
unfolding slice
take-slice mem p n m h = take-take (drop p mem) n m h

drop-slice : (mem : Block) (p n m : ℕ) → drop n (slice mem p (n + m)) ≡ slice mem (p + n) m
unfolding slice
drop-slice mem p n m =
    drop-take (drop p mem) n (n + m) m refl ∙ ap (take m) (drop-drop mem p n (p + n) refl)

sum_samples-same :
    (size : ℕ) (mem : Block) (p c : ℕ) (v : List ℕ) (s : ℤ)
    → ((i : ℕ) → i < c → slice mem (p + i * size) size ≡ v)
    → sum_samples size s c (slice mem p (c * size)) ≡ sum_copies c s (signed size v)
unfolding sum_samples sum_copies
sum_samples-same size mem p zero v s h = refl
sum_samples-same size mem p (suc c) v s h =
    let first : slice mem p size ≡ v =
      let e : p + 0 * size ≡ p = omega arith in rw (← e) (h 0 (omega arith)) in
    let e : suc c * size ≡ size + c * size = omega arith in
    rw
      (
        e,
        take-slice mem p size (size + c * size) (omega arith),
        drop-slice mem p size (c * size),
        first,
      )
      (sum_samples-same size mem (p + size) c v (wrap (2 ^ 32) (s +ℤ signed size v)) (λ i k.
        let e' : p + size + i * size ≡ p + suc i * size = omega arith in
        rw e' (h (suc i) (omega arith))))

abbrev minus : ℕ → ℤ
minus m = sub_ℕ 0 m

step_pos : (a n : ℕ) → a + n < 2 ^ 31 → wrap (2 ^ 32) (pos a +ℤ pos n) ≡ pos (a + n)
unfolding ◌+ℤ◌
step_pos a n h = ground arith

step_neg : (a n : ℕ) → a + suc n ≤ 2 ^ 31 → wrap (2 ^ 32) (minus a +ℤ negsuc n) ≡ minus (a + suc n)
unfolding ◌+ℤ◌
step_neg a n h = ground arith

sum_copies-pos : (c a n : ℕ) → a + c * n < 2 ^ 31 → sum_copies c (pos a) (pos n) ≡ pos (a + c * n)
unfolding sum_copies
sum_copies-pos zero a n h = ap pos (omega arith)
sum_copies-pos (suc c) a n h =
    rw (step_pos a n (omega arith))
      (sum_copies-pos c (a + n) n (omega arith) ∙ ap pos (omega arith))

sum_copies-neg :
    (c a n : ℕ) → a + c * suc n ≤ 2 ^ 31 → sum_copies c (minus a) (negsuc n) ≡ minus (a + c * suc n)
unfolding sum_copies
sum_copies-neg zero a n h = ap minus (omega arith)
sum_copies-neg (suc c) a n h =
    rw (step_neg a n (omega arith))
      (sum_copies-neg c (a + suc n) n (omega arith) ∙ ap minus (omega arith))

divide_neg : (m n d : ℕ) → suc m ≡ suc n * suc d → divide (minus (suc m)) (suc d) ≡ negsuc n
divide_neg m n d e =
    let q : suc m / suc d ≡ suc n = ap (λ k. k / suc d) e ∙ mul-div_cancel (suc n) (omega arith) in
    ground arith

-- The mean of at most 2 ^ 15 copies of a number of 16 bits is that number.
divide-copies :
    (d : ℕ) (z : ℤ)
    → suc d ≤ 32768
    → (pos_part z < 32768) × (neg_part z ≤ 32768)
    → divide (sum_copies (suc d) (pos 0) z) (suc d) ≡ z
divide-copies d (pos n) few small =
    let b : suc d * n ≤ 32768 * n = mul-le-mul_right n few in
    rw (sum_copies-pos (suc d) 0 n (omega arith)) (
      let e : 0 + suc d * n ≡ n * suc d = omega arith in
      rw e (ap pos (mul-div_cancel n (omega arith))))
divide-copies d (negsuc n) few small =
    let b : suc d * suc n ≤ 32768 * suc n = mul-le-mul_right (suc n) few in
    rw (sum_copies-neg (suc d) 0 n (omega arith)) (
      let e : 0 + suc d * suc n ≡ suc (suc n * suc d - 1) = omega arith in
      rw e (divide_neg (suc n * suc d - 1) n d (omega arith)))

-- the sizes at which the sum of a frame fits an `int`
pub data Depth : Type 0 where
  depth8 : Depth
  depth16 : Depth

abbrev pub size_of : Depth → ℕ
size_of depth8 = 1
size_of depth16 = 2

length-stored : (d : Depth) (z : ℤ) → length (stored (size_of d) z) ≡ size_of d
length-stored depth8 (pos n) = refl
length-stored depth8 (negsuc n) = refl
length-stored depth16 (pos n) = refl
length-stored depth16 (negsuc n) = refl

length-mean : (d : Depth) (c : ℕ) (v : List ℕ) → length (mean (size_of d) c v) ≡ size_of d
unfolding mean
length-mean d c v = length-stored d (divide (sum_samples (size_of d) (pos 0) c v) c)

stored-signed :
    (d : Depth) (v : List ℕ)
    → length v ≡ size_of d
    → IsBytes v
    → (stored (size_of d) (signed (size_of d) v) ≡ v)
      × (pos_part (signed (size_of d) v) < 32768)
      × (neg_part (signed (size_of d) v) ≤ 32768)
stored-signed depth8 (a ∷ []) h k = (ground arith, ground arith, ground arith)
stored-signed depth16 (a ∷ b ∷ []) h k = (ground arith, ground arith, ground arith)
stored-signed depth8 [] h k = absurd (omega arith)
stored-signed depth16 [] h k = absurd (omega arith)
stored-signed depth8 (a ∷ b ∷ v) h k = absurd (omega arith)
stored-signed depth16 (a ∷ []) h k = absurd (omega arith)
stored-signed depth16 (a ∷ b ∷ c ∷ v) h k = absurd (omega arith)

mean-copies :
    (d : Depth) (mem : Block) (p c : ℕ) (v : List ℕ)
    → suc c ≤ 32768
    → length v ≡ size_of d
    → IsBytes v
    → ((i : ℕ) → i < suc c → slice mem (p + i * size_of d) (size_of d) ≡ v)
    → mean (size_of d) (suc c) (slice mem p (suc c * size_of d)) ≡ v
unfolding mean
mean-copies d mem p c v few long b h =
    let s = stored-signed d v long b in
    rw
      (
        sum_samples-same (size_of d) mem p (suc c) v (pos 0) h,
        divide-copies c (signed (size_of d) v) few (s.1, s.2),
      )
      s.0

frame_of : (to i c : ℕ) → c < to → (i * to + c) / to ≡ i
frame_of to i c h =
    let e : i * to + c ≡ to * i + c = omega arith in
    rw e (mul-add-div (omega arith) i c ∙ rw (div-eq_of_lt h) (omega arith))

module _ (d : Depth) (out in_ n t : ℕ) (mem : Block) where
  abbrev to : ℕ
  to = suc t

  abbrev size : ℕ
  size = size_of d

  -- The sample that the flat loop reads in its round `k`.
  abbrev source : ℕ → ℕ
  source k = in_ + k / to * size

  flat :
      chans_1ton size out in_ n to mem
      ≡ down (move_sample (λ b. b) size size out source) (n * to) mem
  unfolding chans_1ton
  flat = down-down _ _ to n mem (λ i c m h.
      ap (λ q. move (λ b. b) (in_ + q * size) size (out + (i * to + c) * size) m)
        (sym (frame_of to i c h)))

  module _ (has_in : in_ + n * size ≤ length mem) (has_out : out + n * to * size ≤ length mem)
      (apart : MayWiden out in_ (n * to) size) where
    spread :
        (mem1 : Block) × (chans_1ton size out in_ n to mem ≡ done mem1)
        × IsConverted (λ b. b) size size out source 0 (n * to) mem mem1
    spread =
        let r =
          down_lem (λ b. b) size size out source (λ b e. e) (n * to) mem
            (
              λ k h l.
                  omega (arith, rows (k / to) n size ((div-lt_iff_lt-mul (zero-lt-suc t)).1 l)),
              has_out,
            )
            (λ k l. elim apart [
              | inl e ↦ inl (omega (arith, mul-le-mul_right size (div-le_self k to)))
              | inr e ↦ inr (omega arith)
            ]) in
        (r.0, flat ∙ r.1, r.2)

    module _ (few : to ≤ 32768) (b : IsBytes mem) where
      wide : (m : ℕ) → m * size ≤ m * (to * size)
      wide m = mul-le-mul_left m (omega arith)

      frame :
          (mem1 : Block) (j : ℕ)
          → IsConverted (λ b. b) size size out source 0 (n * to) mem mem1
          → j < n
          → mean size to (slice mem1 (out + j * (to * size)) (to * size))
            ≡ slice mem (in_ + j * size) size
      frame mem1 j c l =
          mean-copies d mem1 (out + j * (to * size)) t (slice mem (in_ + j * size) size) few
            (length-slice mem (in_ + j * size) size (omega (arith, rows j n size l)))
            (IsBytes-slice mem (in_ + j * size) size b)
            (λ i h.
              let e : out + j * (to * size) + i * size ≡ out + (j * to + i) * size = omega arith in
              rw e (
                c.samples (j * to + i) (omega arith) (omega (arith, rows j n to l))
                ∙ ap (λ q. slice mem (in_ + q * size) size) (frame_of to j i h)))

      gathered :
          (mem1 : Block)
          → IsConverted (λ b. b) size size out source 0 (n * to) mem mem1
          → (mem2 : Block) × (chans_nto1 size out out (n * to) to mem1 ≡ done mem2)
            × IsRestored out in_ n size (to * size) mem mem2
      unfolding chans_nto1
      gathered mem1 c =
          let whole : n * to * size ≡ n * (to * size) = omega arith in
          let r =
            up_all (mean size to) (to * size) size out (λ j. out + j * (to * size))
              (λ v e. length-mean d to v) n mem1
              (
                λ j h l. omega (arith, c.outside.size, rows j n (to * size) l),
                omega (arith, c.outside.size, wide n),
              )
              (λ j h l. inl (omega (arith, wide j))) in
          (
            r.0,
            rw (mul-div_cancel n (zero-lt-suc t)) (r.1),
            record {
              outside =
                  SameOutside-trans (SameOutside-widen c.outside (omega arith) (omega arith))
                    (SameOutside-widen r.2.outside (omega arith) (omega (arith, wide n)));
              samples = λ j l. r.2.samples j (omega arith) l ∙ frame mem1 j c l;
            },
          )

widens :
    (d : Depth) (out in_ n t : ℕ) (mem mem1 : Block)
    → 2 < suc t
    → chans_1ton (size_of d) out in_ n (suc t) mem ≡ done mem1
    → conv_chans out in_ n 1 (suc t) (8 * size_of d) mem ≡ done (ok, mem1)
unfolding conv_chans
widens depth8 out in_ n t mem mem1 h e =
    rw (==-ne 1 (suc t) (omega arith), ==-ne (suc t) 2 (omega arith), e) refl
widens depth16 out in_ n t mem mem1 h e =
    rw (==-ne 1 (suc t) (omega arith), ==-ne (suc t) 2 (omega arith), e) refl

narrows :
    (d : Depth) (out n t : ℕ) (mem mem1 : Block)
    → 2 < suc t
    → chans_nto1 (size_of d) out out (n * suc t) (suc t) mem ≡ done mem1
    → conv_chans out out (n * suc t) (suc t) 1 (8 * size_of d) mem ≡ done (ok, mem1)
unfolding conv_chans
narrows depth8 out n t mem mem1 h e =
    rw (==-ne (suc t) 1 (omega arith), ==-ne (suc t) 2 (omega arith), e) refl
narrows depth16 out n t mem mem1 h e =
    rw (==-ne (suc t) 1 (omega arith), ==-ne (suc t) 2 (omega arith), e) refl

-- For samples of 8 or 16 bits and 3 to 2 ^ 15 channels: `roar_conv_chans` of `n` samples from one
-- channel at `in` to so many channels at `out`, and back to one channel in place, both return 0
-- without leaving the block, and the samples then stand at `out` as they stood at `in`; only the
-- place of the many channels has changed. `out` may be `in`, or lie behind it so that they overlap,
-- or end in front of it.
pub conv_chans-back :
    (d : Depth) (out in_ n to : ℕ) (mem : Block)
    → 2 < to
    → to ≤ 32768
    → IsBytes mem
    → in_ + n * size_of d ≤ length mem
    → out + n * to * size_of d ≤ length mem
    → MayWiden out in_ (n * to) (size_of d)
    → (mem1 : Block) × (mem2 : Block) × (conv_chans out in_ n 1 to (8 * size_of d) mem
        ≡ done (ok, mem1))
      × (conv_chans out out (n * to) to 1 (8 * size_of d) mem1 ≡ done (ok, mem2))
      × IsRestored out in_ n (size_of d) (to * size_of d) mem mem2
conv_chans-back d out in_ n zero mem many few b h k apart = absurd (omega arith)
conv_chans-back d out in_ n (suc t) mem many few b h k apart =
    let s = spread d out in_ n t mem h k apart in
    let g = gathered d out in_ n t mem h k apart few b s.0 s.2 in
    (s.0, g.0, widens d out in_ n t mem s.0 many s.1, narrows d out n t s.0 g.0 many g.1, g.2)
