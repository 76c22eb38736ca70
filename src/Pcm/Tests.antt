-- ===== src/Pcm/Tests.antt =====
-- The functions of libroardsp/mixer.c and libroardsp/midside.c on a few samples.
use roaraudio.Prelude.{zero, suc, get_elem?, ◌≤◌, ℕ, ◌<◌, ◌≡◌, some, List, [], ◌∷◌, arith, length}
use roaraudio.Prelude.Int.{ℤ, pos, negsuc, pos_part, neg_part}
use roaraudio.Pcm.{mix_pcm}
use roaraudio.Pcm.Mix.{Sums, depth8, mix_pcm-IsNearest, mix_pcm-wraps}

-- three inputs of two samples
abbrev three_inputs : List (List ℤ)
three_inputs =
    (pos 100 ∷ negsuc 99 ∷ []) ∷ (pos 100 ∷ negsuc 99 ∷ []) ∷ (negsuc 9 ∷ pos 5 ∷ []) ∷ []

two_small :
    (a b : ℤ)
    → neg_part a ≤ 128
    → pos_part a ≤ 128
    → neg_part b ≤ 128
    → pos_part b ≤ 128
    → (s : ℕ) (x : ℤ) → get_elem? (a ∷ b ∷ []) s ≡ some x
    → (neg_part x ≤ 128) × (pos_part x ≤ 128)
two_small a b h k m n zero x e = let q : a ≡ x = cc in rw (← q) (h, k)
two_small a b h k m n (suc zero) x e = let q : b ≡ x = cc in rw (← q) (m, n)
two_small a b h k m n (suc (suc s)) x e = absurd (ground arith)

mix_pcm-IsNearest_example :
    (out : List ℤ) × (mix_pcm 8 three_inputs 2 ≡ some out)
    × (length out ≡ 2)
    × ((s : ℕ) → s < 2 → Sums 128 three_inputs out s)
mix_pcm-IsNearest_example =
    mix_pcm-IsNearest depth8 three_inputs 2 (omega arith, (omega arith, (omega arith, tt)))
      (
        two_small (pos 100) (negsuc 99) (omega arith) (omega arith) (omega arith) (omega arith),
        (
          two_small (pos 100) (negsuc 99) (omega arith) (omega arith) (omega arith) (omega arith),
          (
            two_small (negsuc 9) (pos 5) (omega arith) (omega arith) (omega arith) (omega arith),
            tt,
          ),
        ),
      )
      (omega arith)

mix_pcm-wraps_example :
    mix_pcm 32 ((pos 2000000000 ∷ []) ∷ (pos 1000000000 ∷ []) ∷ []) 1
    ≡ some (negsuc 1294967295 ∷ [])
mix_pcm-wraps_example =
    mix_pcm-wraps 2000000000 1000000000 (omega arith) (omega arith) (omega arith)

abbrev two_pairs : List (ℤ × ℤ)
two_pairs = (pos 3, negsuc 4) ∷ (negsuc 32767, pos 7) ∷ []
