-- ===== src/Convert/Loops.antt =====
-- The loops of libroardsp/convert.c, with an output that may lie on the input.
use mathlib.Core.Path.{subst}
use native.Mathlib.Nat.{zero-add}
use roaraudio.Prelude.{
  ℕ, zero, suc, ◌+◌, ◌*◌, ◌≤◌, ◌<◌, ◌≡◌, ◌⊎◌, inl, inr, refl, ◌∙◌, ap, List, arith, length,
}
use roaraudio.Memory.{
  slice, copy, length-slice, slice-copy_self, SameOutside, copy-SameOutside, SameOutside-trans,
}
use roaraudio.Meta.{Run, done}
use roaraudio.Convert.{Block, down, up, move}

pub rows : (j n w : ℕ) → j < n → (j * w + w ≤ n * w) × ((j + 1) * w ≡ j * w + w)
rows j n w h = grind arith

below_or_last : (j n : ℕ) → j < suc n → (j < n) ⊎ (j ≡ n)
below_or_last j n h = ground arith

first_or_above : (lo j : ℕ) → lo ≤ j → (lo + 1 ≤ j) ⊎ (j ≡ lo)
first_or_above lo j h = ground arith

pub SameOutside-refl : (lo : ℕ) (mem : List ℕ) → SameOutside lo lo mem mem
SameOutside-refl lo mem = record { size = refl; before = λ i n h. refl; after = λ i n h. refl }

pub SameOutside-widen :
    {lo hi lo' hi' : ℕ} {mem mem' : List ℕ}
    → SameOutside lo hi mem mem'
    → lo' ≤ lo
    → hi ≤ hi'
    → SameOutside lo' hi' mem mem'
SameOutside-widen o h k = record {
  size = o.size;
  before = λ i n e. o.before i n (omega arith);
  after = λ i n e. o.after i n (omega arith);
}

-- What a move within the block does.
pub record IsMoved (f : List ℕ → List ℕ) (from size to width : ℕ) (mem mem' : Block) : Type 0 where
  pub moves : move f from size to mem ≡ done mem'
  pub outside : SameOutside to (to + width) mem mem'
  pub sample : slice mem' to width ≡ f (slice mem from size)

pub move_lem :
    (f : List ℕ → List ℕ) (from size to width : ℕ) (mem : Block)
    → from + size ≤ length mem
    → to + width ≤ length mem
    → length (f (slice mem from size)) ≡ width
    → (mem' : Block) × IsMoved f from size to width mem mem'
move_lem f from size to width mem h k e =
    let v = f (slice mem from size) in
    let fits : to + length v ≤ length mem = omega arith in
    (
      copy mem to v,
      record {
        moves = ground arith;
        outside = copy-SameOutside to (to + width) mem to v k (omega arith) (omega arith);
        sample = rw (← e) (slice-copy_self mem to v fits);
      },
    )

-- Samples are read at `src j` and stored one behind the other from `out` on.
module _ (f : List ℕ → List ℕ) (size width out : ℕ) (src : ℕ → ℕ) where
  -- The samples from `lo` up to `hi` are converted, and nothing else has changed.
  pub record IsConverted (lo hi : ℕ) (mem mem' : Block) : Type 0 where
    pub outside : SameOutside (out + lo * width) (out + hi * width) mem mem'
    pub samples :
        (j : ℕ) → lo ≤ j → j < hi → slice mem' (out + j * width) width ≡ f (slice mem (src j) size)

  abbrev pub move_sample : ℕ → Block → Run Block
  move_sample j = move f (src j) size (out + j * width)

  -- `f` makes samples of `width` bytes.
  abbrev pub Sized : Type 0
  Sized = (bytes : List ℕ) → length bytes ≡ size → length (f bytes) ≡ width

  -- All samples lie in the block.
  abbrev pub InBlock : (lo hi : ℕ) → Block → Type 0
  InBlock lo hi mem =
      ((j : ℕ) → lo ≤ j → j < hi → src j + size ≤ length mem) × (out + hi * width ≤ length mem)

  -- No sample is overwritten before it is read, if the last one is converted first, or
  abbrev pub SafeDown : (n : ℕ) → Type 0
  SafeDown n = (j : ℕ) → j < n → (src j + size ≤ out + (j + 1) * width) ⊎ (out + n * width ≤ src j)

  -- if the first one is.
  abbrev pub SafeUp : (lo hi : ℕ) → Type 0
  SafeUp lo hi =
      (j : ℕ) → lo ≤ j → j < hi → (out + j * width ≤ src j) ⊎ (src j + size ≤ out + lo * width)

  module _ (sized : Sized) where
    pub down_lem :
        (n : ℕ) (mem : Block)
        → InBlock 0 n mem
        → SafeDown n
        → (mem' : Block) × (down move_sample n mem ≡ done mem') × IsConverted 0 n mem mem'
    unfolding down
    down_lem zero mem inside safe = (
      mem,
      refl,
      record { outside = SameOutside-refl _ mem; samples = λ j h k. absurd (omega arith) },
    )
    down_lem (suc n) mem inside safe =
        let here = inside.0 n (omega arith) (omega arith) in
        let m =
          move_lem f (src n) size (out + n * width) width mem here
            (omega (arith, inside.1, rows n (suc n) width (omega arith)))
            (sized _ (length-slice mem (src n) size here)) in
        let o = m.1.outside in
        let ih =
          down_lem n m.0
            (
              λ j h k. omega (arith, o.size, inside.0 j h (omega arith)),
              omega (arith, o.size, inside.1, rows n (suc n) width (omega arith)),
            )
            (λ j h. elim (safe j (omega arith)) [
              | inl e ↦ inl e
              | inr e ↦ inr (omega (arith, e, rows n (suc n) width (omega arith)))
            ]) in
        let kept : (j : ℕ) → j < n → slice m.0 (src j) size ≡ slice mem (src j) size = λ j h.
          elim (safe j (omega arith)) [
            | inl e ↦ o.before _ _ (omega (arith, e, rows j n width h))
            | inr e ↦ o.after _ _ (omega (arith, e, rows n (suc n) width (omega arith)))
          ] in
        (
          ih.0,
          rw (m.1.moves) (ih.1),
          record {
            outside =
                SameOutside-trans
                  (SameOutside-widen o (omega arith)
                    (omega (arith, rows n (suc n) width (omega arith))))
                  (SameOutside-widen ih.2.outside (omega arith)
                    (omega (arith, rows n (suc n) width (omega arith))));
            samples = λ j h k. elim (below_or_last j n k) [
              | inl e ↦ ih.2.samples j h e ∙ ap f (kept j e)
              | inr e ↦ rw e (ih.2.outside.after _ _ (omega arith) ∙ m.1.sample)
            ];
          },
        )

    pub up_lem :
        (lo n : ℕ) (mem : Block)
        → InBlock lo (lo + n) mem
        → SafeUp lo (lo + n)
        → (mem' : Block) × (up move_sample lo n mem ≡ done mem') × IsConverted lo (lo + n) mem mem'
    unfolding up
    up_lem lo zero mem inside safe = (
      mem,
      refl,
      record {
        outside =
            let e : lo + 0 ≡ lo = omega arith in rw e (SameOutside-refl (out + lo * width) mem);
        samples = λ j h k. absurd (omega arith);
      },
    )
    up_lem lo (suc n) mem inside safe =
        let here = inside.0 lo (omega arith) (omega arith) in
        let row = rows lo (lo + suc n) width (omega arith) in
        let m =
          move_lem f (src lo) size (out + lo * width) width mem here (omega (arith, inside.1, row))
            (sized _ (length-slice mem (src lo) size here)) in
        let o = m.1.outside in
        let same : lo + 1 + n ≡ lo + suc n = omega arith in
        let ih =
          up_lem (lo + 1) n m.0
            (rw same (
              λ j h k. omega (arith, o.size, inside.0 j (omega arith) k),
              omega (arith, o.size, inside.1),
            ))
            (λ j h k. elim (safe j (omega arith) (omega arith)) [
              | inl e ↦ inl e
              | inr e ↦ inr (omega (arith, e, row))
            ]) in
        let kept : (j : ℕ)
            → lo < j
            → j < lo + suc n
            → slice m.0 (src j) size ≡ slice mem (src j) size =
          λ j h k. elim (safe j (omega arith) k) [
            | inl e ↦ o.after _ _ (omega (arith, e, rows lo j width h))
            | inr e ↦ o.before _ _ (omega (arith, e))
          ] in
        let done' : IsConverted (lo + 1) (lo + suc n) m.0 ih.0 =
          subst (λ k. IsConverted (lo + 1) k m.0 ih.0) same ih.2 in
        (
          ih.0,
          rw (m.1.moves) (ih.1),
          record {
            outside =
                SameOutside-trans (SameOutside-widen o (omega arith) (omega (arith, row)))
                  (SameOutside-widen done'.outside (omega (arith, row)) (omega arith));
            samples = λ j h k. elim (first_or_above lo j h) [
              | inl e ↦ done'.samples j e k ∙ ap f (kept j (omega arith) k)
              | inr e ↦ rw e (done'.outside.before _ _ (omega (arith, row)) ∙ m.1.sample)
            ];
          },
        )

    pub up_all :
        (n : ℕ) (mem : Block)
        → InBlock 0 n mem
        → SafeUp 0 n
        → (mem' : Block) × (up move_sample 0 n mem ≡ done mem') × IsConverted 0 n mem mem'
    up_all n mem =
        subst
          (λ k.
            InBlock 0 k mem
            → SafeUp 0 k
            → (mem' : Block) × (up move_sample 0 n mem ≡ done mem') × IsConverted 0 k mem mem')
          (zero-add n) (up_lem 0 n mem)
