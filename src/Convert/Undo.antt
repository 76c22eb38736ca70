-- ===== src/Convert/Undo.antt =====
-- The loops of libroardsp/convert.c one after the other, where the second undoes the first.
use native.Mathlib.Nat.{mul-le-mul_left}
use roaraudio.Prelude.{
  ℕ, zero, suc, ◌+◌, ◌*◌, ◌≤◌, ◌<◌, ◌≡◌, ◌⊎◌, inl, inr, ◌∙◌, ap, List, [], ◌∷◌, take, drop, arith,
  length,
}
use roaraudio.Memory.{slice, length-slice, SameOutside, SameOutside-trans}
use roaraudio.Meta.{done}
use roaraudio.Convert.{Block, down, up}
use roaraudio.Convert.Loops.{IsConverted, move_sample, down_lem, up_all, rows, SameOutside-widen}

-- the bytes of memory
abbrev pub IsBytes : List ℕ → Type 0
IsBytes [] = Unit {0}
IsBytes (b ∷ bs) = (b < 256) × IsBytes bs

IsBytes-take : (n : ℕ) (bs : List ℕ) → IsBytes bs → IsBytes (take n bs)
IsBytes-take zero bs h = tt
IsBytes-take (suc n) [] h = tt
IsBytes-take (suc n) (b ∷ bs) h = (h.0, IsBytes-take n bs h.1)

IsBytes-drop : (n : ℕ) (bs : List ℕ) → IsBytes bs → IsBytes (drop n bs)
IsBytes-drop zero bs h = h
IsBytes-drop (suc n) [] h = tt
IsBytes-drop (suc n) (b ∷ bs) h = IsBytes-drop n bs h.1

pub IsBytes-slice : (bs : List ℕ) (place n : ℕ) → IsBytes bs → IsBytes (slice bs place n)
unfolding slice
IsBytes-slice bs place n h = IsBytes-take n (drop place bs) (IsBytes-drop place bs h)

-- The output begins on or behind the input's first byte, or the two are apart.
abbrev pub MayWiden : (out in_ n width : ℕ) → Type 0
MayWiden out in_ n width = (in_ ≤ out) ⊎ (out + n * width ≤ in_)

module _ (out in_ n size width : ℕ) (mem : Block) where
  -- The `n` samples that were read at `in_` stand at `out`, and only bytes of the longer samples'
  -- place have changed.
  pub record IsRestored (mem' : Block) : Type 0 where
    pub outside : SameOutside out (out + n * width) mem mem'
    pub samples :
        (j : ℕ) → j < n → slice mem' (out + j * size) size ≡ slice mem (in_ + j * size) size

  module _ (f g : List ℕ → List ℕ) (Good : List ℕ → Type 0)
      (sized_f : (bytes : List ℕ) → length bytes ≡ size → length (f bytes) ≡ width)
      (sized_g : (bytes : List ℕ) → length bytes ≡ width → length (g bytes) ≡ size)
      (undo : (bytes : List ℕ) → length bytes ≡ size → Good bytes → g (f bytes) ≡ bytes)
      (shorter : size ≤ width) (good : (j : ℕ) → j < n → Good (slice mem (in_ + j * size) size))
      (has_in : in_ + n * size ≤ length mem) (has_out : out + n * width ≤ length mem) where
    shorter_row : (j : ℕ) → j * size ≤ j * width
    shorter_row j = mul-le-mul_left j shorter

    -- The way back, in place and with the first sample first.
    narrow_back :
        (mem1 : Block)
        → IsConverted f size width out (λ j. in_ + j * size) 0 n mem mem1
        → (mem2 : Block) × (up (move_sample g width size out (λ j. out + j * width)) 0 n mem1
            ≡ done mem2)
          × IsRestored mem2
    narrow_back mem1 c =
        let b =
          up_all g width size out (λ j. out + j * width) sized_g n mem1
            (
              λ j h k. omega (arith, c.outside.size, rows j n width (omega arith)),
              omega (arith, c.outside.size, shorter_row n),
            )
            (λ j h k. inl (omega (arith, shorter_row j))) in
        (
          b.0,
          b.1,
          record {
            outside =
                SameOutside-trans (SameOutside-widen c.outside (omega arith) (omega arith))
                  (SameOutside-widen b.2.outside (omega arith) (omega (arith, shorter_row n)));
            samples = λ j h.
                b.2.samples j (omega arith) (omega arith)
                ∙ ap g (c.samples j (omega arith) h)
                ∙ undo _ (length-slice mem (in_ + j * size) size (omega (arith, rows j n size h)))
                    (good j h);
          },
        )

    -- What is made longer, with the last sample first, and shorter again is what it was.
    pub widen_back :
        MayWiden out in_ n width
        → (mem1 : Block) × (mem2 : Block) × (down
              (move_sample f size width out (λ j. in_ + j * size))
              n
              mem
            ≡ done mem1)
          × (up (move_sample g width size out (λ j. out + j * width)) 0 n mem1 ≡ done mem2)
          × IsRestored mem2
    widen_back apart =
        let a =
          down_lem f size width out (λ j. in_ + j * size) sized_f n mem
            (λ j h k. omega (arith, rows j n size k), has_out)
            (λ j h. elim apart [
              | inl e ↦ inl (omega (arith, shorter_row (j + 1), rows j n size h))
              | inr e ↦ inr (omega arith)
            ]) in
        let b = narrow_back a.0 a.2 in (a.0, b.0, a.1, b.1, b.2)

    -- What is made of samples of the same length, with the first one first, and undone.
    pub level_back :
        width ≤ size
        → (out ≤ in_) ⊎ (in_ + n * size ≤ out)
        → (mem1 : Block) × (mem2 : Block) × (up
              (move_sample f size width out (λ j. in_ + j * size))
              0
              n
              mem
            ≡ done mem1)
          × (up (move_sample g width size out (λ j. out + j * width)) 0 n mem1 ≡ done mem2)
          × IsRestored mem2
          × (length mem1 ≡ length mem)
    level_back longer apart =
        let row : (j : ℕ) → j * width ≤ j * size = λ j. mul-le-mul_left j longer in
        let a =
          up_all f size width out (λ j. in_ + j * size) sized_f n mem
            (λ j h k. omega (arith, rows j n size (omega arith)), omega arith)
            (λ j h k. elim apart [
              | inl e ↦ inl (omega (arith, row j))
              | inr e ↦ inr (omega (arith, rows j n size (omega arith)))
            ]) in
        let b = narrow_back a.0 a.2 in (a.0, b.0, a.1, b.1, b.2, a.2.outside.size)
