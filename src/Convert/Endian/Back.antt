-- ===== src/Convert/Endian/Back.antt =====
-- roar_conv_endian of libroardsp/convert.c in place, there and back.
use native.Mathlib.Nat.{zero-add}
use native.Mathlib.Numerals.{unary_clauses}
use roaraudio.Prelude.TakeDrop.{take_all}
use roaraudio.Prelude.{
  ℕ, zero, suc, ◌+◌, ◌-◌, ◌*◌, ◌≤◌, ◌≡◌, refl, ap, ==-self, sym, ◌∙◌, inl, List, [], ◌∷◌, ◌++◌,
  arith, length, take, drop,
}
use roaraudio.Status.{ok}
use roaraudio.Memory.{slice}
use roaraudio.Meta.{Run, done}
use roaraudio.Convert.{Block}
use roaraudio.Convert.Undo.{IsRestored, level_back}
use roaraudio.Convert.Endian.{
  swap2, swap3, swap4, endian_16, endian_24, endian_32, conv_endian, order_le, order_be, order_pdp,
  returns,
}

take-add {ℓ} :
    {A : Type ℓ} (xs : List A) (a m : ℕ) → take (a + m) xs ≡ take a xs ++ take m (drop a xs)
take-add xs zero m = rw (zero-add m) refl
take-add [] (suc a) zero = simp unary_clauses
take-add [] (suc a) (suc m) = simp unary_clauses
take-add (x ∷ xs) (suc a) m =
    let e : suc a + m ≡ suc (a + m) = omega arith in rw e (ap (λ l. x ∷ l) (take-add xs a m))

slice-add : (mem : List ℕ) (a m : ℕ) → slice mem 0 (a + m) ≡ slice mem 0 a ++ slice mem a m
unfolding slice
slice-add mem a m = take-add mem a m

slice_whole : (mem : List ℕ) (n : ℕ) → length mem ≤ n → slice mem 0 n ≡ mem
unfolding slice
slice_whole mem n h = take_all mem n h

module _ (place n size : ℕ) (mem mem' : Block)
    (r : IsRestored place place n size size mem mem') where
  front : (k : ℕ) → k ≤ n → slice mem' 0 (place + k * size) ≡ slice mem 0 (place + k * size)
  front zero h = r.outside.before 0 (place + 0 * size) (omega arith)
  front (suc k) h =
      let e : place + suc k * size ≡ place + k * size + size = omega arith in
      rw
        (
          e,
          slice-add mem' (place + k * size) size,
          slice-add mem (place + k * size) size,
          front k (omega arith),
          r.samples k h,
        )
        refl

  -- All bytes are what they were.
  restored : place + n * size ≤ length mem → mem' ≡ mem
  restored fits =
      let rest = length mem - (place + n * size) in
      let e : place + n * size + rest ≡ length mem = omega arith in
      let whole : (l : List ℕ)
          → length l ≡ length mem
          → slice l 0 (place + n * size) ++ slice l (place + n * size) rest ≡ l =
        λ l h.
          sym (slice-add l (place + n * size) rest)
          ∙ slice_whole l (place + n * size + rest) (omega arith) in
      sym (whole mem' r.outside.size)
      ∙ rw (front n (omega arith), r.outside.after (place + n * size) rest (omega arith))
          (whole mem refl)

swap2_twice : (b : List ℕ) → length b ≡ 2 → Unit {0} → swap2 (swap2 b) ≡ b
swap2_twice (a ∷ b ∷ []) h k = refl
swap2_twice b h k = absurd (omega arith)

swap3_twice : (b : List ℕ) → length b ≡ 3 → Unit {0} → swap3 (swap3 b) ≡ b
swap3_twice (a ∷ b ∷ c ∷ []) h k = refl
swap3_twice b h k = absurd (omega arith)

swap4_twice : (b : List ℕ) → length b ≡ 4 → Unit {0} → swap4 (swap4 b) ≡ b
swap4_twice (a ∷ b ∷ c ∷ d ∷ []) h k = refl
swap4_twice b h k = absurd (omega arith)

-- `f` succeeds without a change of the block's size, and `g` undoes it.
abbrev Undone : (f g : Block → Run Block) → Block → Type 0
Undone f g mem =
    (mem1 : Block) × (f mem ≡ done mem1) × (g mem1 ≡ done mem) × (length mem1 ≡ length mem)

module _ (place n : ℕ) (mem : Block) where
  twice16 :
      place + n * 2 ≤ length mem → Undone (endian_16 place place n) (endian_16 place place n) mem
  unfolding endian_16
  twice16 fits =
      let r =
        level_back place place n 2 2 mem swap2 swap2 (λ b. Unit {0}) (λ b e. refl) (λ b e. refl)
          swap2_twice (omega arith) (λ j h. tt) fits fits (omega arith) (inl (omega arith)) in
      (
        r.0,
        rw (==-self place) (r.2),
        rw (==-self place) (r.3 ∙ ap done (restored place n 2 mem r.1 r.4 fits)),
        r.5,
      )

  twice24 :
      place + n * 3 ≤ length mem → Undone (endian_24 place place n) (endian_24 place place n) mem
  unfolding endian_24
  twice24 fits =
      let r =
        level_back place place n 3 3 mem swap3 swap3 (λ b. Unit {0}) (λ b e. refl) (λ b e. refl)
          swap3_twice (omega arith) (λ j h. tt) fits fits (omega arith) (inl (omega arith)) in
      (
        r.0,
        rw (==-self place) (r.2),
        rw (==-self place) (r.3 ∙ ap done (restored place n 3 mem r.1 r.4 fits)),
        r.5,
      )

  twice32 :
      place + n * 4 ≤ length mem → Undone (endian_32 place place n) (endian_32 place place n) mem
  unfolding endian_32
  twice32 fits =
      let r =
        level_back place place n 4 4 mem swap4 swap4 (λ b. Unit {0}) (λ b e. refl) (λ b e. refl)
          swap4_twice (omega arith) (λ j h. tt) fits fits (omega arith) (inl (omega arith)) in
      (r.0, r.2, r.3 ∙ ap done (restored place n 4 mem r.1 r.4 fits), r.5)

pub data ByteOrder : Type 0 where
  le : ByteOrder
  be : ByteOrder
  pdp : ByteOrder

abbrev pub code : ByteOrder → ℕ
code le = order_le
code be = order_be
code pdp = order_pdp

pub data Sample : Type 0 where
  s8 : Sample
  s16 : Sample
  s24 : Sample
  s32 : Sample

abbrev pub size_of : Sample → ℕ
size_of s8 = 1
size_of s16 = 2
size_of s24 = 3
size_of s32 = 4

-- There is no PDP order of 24 bits.
abbrev pub IsOrder : Sample → ByteOrder → Type 0
IsOrder s24 pdp = ⊥
IsOrder s24 order = Unit {0}
IsOrder s order = Unit {0}

-- For samples of 8, 16, 24 or 32 bits and any two of the orders little endian, big endian and PDP,
-- which is not known at 24 bits: `roar_conv_endian` of `n` samples in place returns 0 without leaving
-- the block, and the conversion in the other direction then gives back every byte of the block.
pub conv_endian-back :
    (s : Sample) (from to : ByteOrder) (place n : ℕ) (mem : Block)
    → IsOrder s from
    → IsOrder s to
    → place + n * size_of s ≤ length mem
    → (mem1 : Block) × (conv_endian place place n (code from) (code to) (8 * size_of s) mem
        ≡ done (ok, mem1))
      × (conv_endian place place n (code to) (code from) (8 * size_of s) mem1 ≡ done (ok, mem))
unfolding conv_endian
conv_endian-back s8 from to place n mem h k fits =
    (mem, rw (==-self place) refl, rw (==-self place) refl)
conv_endian-back s16 le le place n mem h k fits =
    (mem, rw (==-self place) refl, rw (==-self place) refl)
conv_endian-back s16 le be place n mem h k fits =
    let r = twice16 place n mem fits in (r.0, ap returns (r.1), ap returns (r.2))
conv_endian-back s16 le pdp place n mem h k fits =
    (mem, rw (==-self place) refl, rw (==-self place) refl)
conv_endian-back s16 be le place n mem h k fits =
    let r = twice16 place n mem fits in (r.0, ap returns (r.1), ap returns (r.2))
conv_endian-back s16 be be place n mem h k fits =
    (mem, rw (==-self place) refl, rw (==-self place) refl)
conv_endian-back s16 be pdp place n mem h k fits =
    let r = twice16 place n mem fits in (r.0, ap returns (r.1), ap returns (r.2))
conv_endian-back s16 pdp le place n mem h k fits =
    (mem, rw (==-self place) refl, rw (==-self place) refl)
conv_endian-back s16 pdp be place n mem h k fits =
    let r = twice16 place n mem fits in (r.0, ap returns (r.1), ap returns (r.2))
conv_endian-back s16 pdp pdp place n mem h k fits =
    (mem, rw (==-self place) refl, rw (==-self place) refl)
conv_endian-back s24 le le place n mem h k fits =
    (mem, rw (==-self place) refl, rw (==-self place) refl)
conv_endian-back s24 le be place n mem h k fits =
    let r = twice24 place n mem fits in (r.0, ap returns (r.1), ap returns (r.2))
conv_endian-back s24 be le place n mem h k fits =
    let r = twice24 place n mem fits in (r.0, ap returns (r.1), ap returns (r.2))
conv_endian-back s24 be be place n mem h k fits =
    (mem, rw (==-self place) refl, rw (==-self place) refl)
conv_endian-back s24 pdp to place n mem h k fits = absurd h
conv_endian-back s24 le pdp place n mem h k fits = absurd k
conv_endian-back s24 be pdp place n mem h k fits = absurd k
conv_endian-back s32 le le place n mem h k fits =
    (mem, rw (==-self place) refl, rw (==-self place) refl)
conv_endian-back s32 le be place n mem h k fits =
    let r = twice32 place n mem fits in (r.0, ap returns (r.1), ap returns (r.2))
conv_endian-back s32 le pdp place n mem h k fits =
    let r = twice16 place (n * 2) mem (omega arith) in (r.0, rw (r.1) refl, rw (r.2) refl)
conv_endian-back s32 be le place n mem h k fits =
    let r = twice32 place n mem fits in (r.0, ap returns (r.1), ap returns (r.2))
conv_endian-back s32 be be place n mem h k fits =
    (mem, rw (==-self place) refl, rw (==-self place) refl)
conv_endian-back s32 be pdp place n mem h k fits =
    let r = twice32 place n mem fits in
    let q = twice16 place (n * 2) r.0 (omega (arith, r.3)) in
    (q.0, rw (r.1) (rw (q.1) refl), rw (q.2) (rw (r.2) refl))
conv_endian-back s32 pdp le place n mem h k fits =
    let r = twice16 place (n * 2) mem (omega arith) in (r.0, rw (r.1) refl, rw (r.2) refl)
conv_endian-back s32 pdp be place n mem h k fits =
    let r = twice16 place (n * 2) mem (omega arith) in
    let q = twice32 place n r.0 (omega (arith, r.3)) in
    (q.0, rw (r.1) (rw (q.1) refl), rw (q.2) (rw (r.2) refl))
conv_endian-back s32 pdp pdp place n mem h k fits =
    (mem, rw (==-self place) refl, rw (==-self place) refl)
