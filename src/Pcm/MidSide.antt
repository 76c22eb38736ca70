-- ===== src/Pcm/MidSide.antt =====
-- roar_conv_s2ms_8, _16 and roar_conv_ms2s_8, _16 of libroardsp/midside.c, one after the other.
use roaraudio.Prelude.{ℕ, ◌+◌, ◌%◌, ◌≤◌, ◌<◌, ◌≡◌, refl, some, List, [], ◌∷◌, arith}
use roaraudio.Prelude.Int.{ℤ, ◌+ℤ◌, ◌-ℤ◌, pos_part, neg_part}
use roaraudio.Pcm.{wrap, half, s2ms, ms2s}

-- in the range of a signed type of `bound` values on each side of 0
abbrev pub InRange : ℕ → ℤ → Type 0
InRange bound x = (neg_part x ≤ bound) × (pos_part x < bound)

abbrev pub size : ℤ → ℕ
size x = pos_part x + neg_part x

-- `y` differs from `x` by at most 1.
abbrev pub Near : ℤ → ℤ → Type 0
Near x y =
    (pos_part x + neg_part y ≤ pos_part y + neg_part x + 1)
    × (pos_part y + neg_part x ≤ pos_part x + neg_part y + 1)

-- What the two conversions make of a pair: each sample is off by at most 1, and by nothing if the
-- sum of the two is even.
pub record IsRestored (l r l' r' : ℤ) : Type 0 where
  pub near_left : Near l l'
  pub near_right : Near r r'
  pub even_left : (size l + size r) % 2 ≡ 0 → l' ≡ l
  pub even_right : (size l + size r) % 2 ≡ 0 → r' ≡ r

mid_in : (l r : ℤ) → InRange 32768 l → InRange 32768 r → wrap 65536 (half (l +ℤ r)) ≡ half (l +ℤ r)
unfolding ◌+ℤ◌
mid_in l r h k = ground arith

side_in : (l r : ℤ) → InRange 32768 l → InRange 32768 r → wrap 65536 (half (l -ℤ r)) ≡ half (l -ℤ r)
unfolding ◌-ℤ◌
side_in l r h k = ground arith

-- a number in range is converted to itself
wrap_in : (x : ℤ) → InRange 32768 x → wrap 65536 x ≡ x
wrap_in x h = ground arith

left-Near : (l r : ℤ) → Near l (half (l +ℤ r) +ℤ half (l -ℤ r))
unfolding ◌+ℤ◌ ◌-ℤ◌
left-Near l r = ground arith

left_in : (l r : ℤ) → InRange 32768 l → InRange 32768 (half (l +ℤ r) +ℤ half (l -ℤ r))
unfolding ◌+ℤ◌ ◌-ℤ◌
left_in l r h = ground arith

left_even : (l r : ℤ) → (size l + size r) % 2 ≡ 0 → half (l +ℤ r) +ℤ half (l -ℤ r) ≡ l
unfolding ◌+ℤ◌ ◌-ℤ◌
left_even l r h = ground arith

right-Near : (l r : ℤ) → Near r (half (l +ℤ r) -ℤ half (l -ℤ r))
unfolding ◌+ℤ◌ ◌-ℤ◌
right-Near l r = ground arith

right_in : (l r : ℤ) → InRange 32768 r → InRange 32768 (half (l +ℤ r) -ℤ half (l -ℤ r))
unfolding ◌+ℤ◌ ◌-ℤ◌
right_in l r h = ground arith

right_even : (l r : ℤ) → (size l + size r) % 2 ≡ 0 → half (l +ℤ r) -ℤ half (l -ℤ r) ≡ r
unfolding ◌+ℤ◌ ◌-ℤ◌
right_even l r h = ground arith

restored :
    (l r : ℤ) → IsRestored l r (half (l +ℤ r) +ℤ half (l -ℤ r)) (half (l +ℤ r) -ℤ half (l -ℤ r))
restored l r = record {
  near_left = left-Near l r;
  near_right = right-Near l r;
  even_left = left_even l r;
  even_right = right_even l r;
}

-- left and right samples in turn
abbrev pub flat : List (ℤ × ℤ) → List ℤ
flat [] = []
flat ((l, r) ∷ ps) = l ∷ r ∷ flat ps

abbrev pub AllInRange : List (ℤ × ℤ) → Type 0
AllInRange [] = Unit {0}
AllInRange ((l, r) ∷ ps) = (InRange 32768 l × InRange 32768 r) × AllInRange ps

abbrev pub AllRestored : List (ℤ × ℤ) → List (ℤ × ℤ) → Type 0
AllRestored [] [] = Unit {0}
AllRestored [] (q ∷ qs) = ◌≡◌ {A = ℕ} 0 1
AllRestored (p ∷ ps) [] = ◌≡◌ {A = ℕ} 0 1
AllRestored ((l, r) ∷ ps) ((l', r') ∷ qs) = IsRestored l r l' r' × AllRestored ps qs

-- `roar_conv_s2ms_16` and then `roar_conv_ms2s_16`, of any number of pairs of 16-bit samples, give as
-- many pairs back: each sample is off by at most 1, and a pair whose sum is even comes back as it was.
ms2s-s2ms :
    (ps : List (ℤ × ℤ))
    → AllInRange ps
    → (ms : List ℤ) × (qs : List (ℤ × ℤ)) × (s2ms 65536 (flat ps) ≡ some ms)
      × (ms2s 65536 ms ≡ some (flat qs))
      × AllRestored ps qs
unfolding s2ms ms2s
ms2s-s2ms [] v = ([], [], refl, refl, tt)
ms2s-s2ms ((l, r) ∷ ps) v =
    let t = ms2s-s2ms ps v.1 in
    let m = half (l +ℤ r) in
    let d = half (l -ℤ r) in
    (
      m ∷ d ∷ t.0,
      (m +ℤ d, m -ℤ d) ∷ t.1,
      rw (mid_in l r v.0.0 v.0.1, side_in l r v.0.0 v.0.1, t.2),
      rw (wrap_in (m +ℤ d) (left_in l r v.0.0), wrap_in (m -ℤ d) (right_in l r v.0.1), t.3),
      (restored l r, t.4),
    )
