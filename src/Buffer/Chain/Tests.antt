-- ===== src/Buffer/Chain/Tests.antt =====
-- The functions of libroar/buffer.c on a chain of three buffers.
use roaraudio.Prelude.{
  ℕ, ◌+◌, ◌≡◌, refl, true, false, none, some, [], ◌∷◌, ◌++◌, arith, drop, ◌==◌, if◌then◌else◌,
}
use roaraudio.Status.{ok}
use roaraudio.Memory.{slice}
use roaraudio.Buffer.{Buffer, Ptr, vp}
use roaraudio.Buffer.Chain.{Heap, done, Shifted, shift_out, add, free}
use roaraudio.Buffer.Chain.Shape.{Cells, has, IsChain, AllInBlock, content, SameElse}
use roaraudio.Buffer.Chain.Shift.{shift_out-content}
use roaraudio.Buffer.Chain.Grow.{relink, add-append, free-gone}

-- two bytes, of which the user sees those from `off` on
abbrev pub cell_of : ℕ → ℕ → ℕ → Ptr → Buffer
cell_of x flags len next = record {
  len = 3;
  user_len = len;
  flags = flags;
  block = 0 ∷ x ∷ (x + 1) ∷ [];
  user_off = 1;
  info = vp none;
  next = next;
}

abbrev pub first_two : Cells
first_two = (5, cell_of 50 0 2 (some 7)) ∷ (7, cell_of 70 1 2 none) ∷ []

abbrev pub third : Cells
third = (9, cell_of 90 0 1 none) ∷ []

-- the chain 5, 7 and the chain 9
abbrev pub two_chains : Heap
two_chains = record {
  cell = λ a.
      if a == 5
      then some (cell_of 50 0 2 (some 7))
      else if a == 7
      then some (cell_of 70 1 2 none)
      else if a == 9
      then some (cell_of 90 0 1 none)
      else none;
  freed = [];
}

abbrev two_chains-IsChain : IsChain two_chains (some 5) first_two
two_chains-IsChain = (refl, refl, refl, (refl, refl, refl, refl))

abbrev first_two-AllInBlock : AllInBlock first_two
first_two-AllInBlock = ((omega arith, omega arith), ((omega arith, omega arith), tt))

shift_out-content_example :
    (g : Heap) × (s : Shifted) × (ys : Cells) × (shift_out 3 (some 5) 3 two_chains
      ≡ done (some s) g)
    × (s.out ≡ 50 ∷ 51 ∷ 70 ∷ [])
    × IsChain g s.buf ys
    × AllInBlock ys
    × (content ys ≡ drop 3 (content first_two))
    × SameElse first_two two_chains g
    × ((i : ℕ) → has i first_two ≡ false → has i ys ≡ false)
unfolding slice
shift_out-content_example =
    shift_out-content two_chains 5 first_two 3 3 (omega arith) two_chains-IsChain
      first_two-AllInBlock

add-append_example :
    (g : Heap) × (add 2 (some 5) (some 9) two_chains ≡ done ok g)
    × IsChain g (some 5) (relink first_two (some 9) ++ third)
    × (content (relink first_two (some 9) ++ third) ≡ content first_two ++ content third)
    × SameElse first_two two_chains g
add-append_example =
    add-append two_chains 5 (cell_of 50 0 2 (some 7)) ((7, cell_of 70 1 2 none) ∷ []) third (some 9)
      2 (omega arith) two_chains-IsChain (refl, refl, refl, refl) (λ i m. ground arith) refl refl

free-gone_example :
    (g : Heap) × (free 3 (some 5) two_chains ≡ done ok g)
    × ((i : ℕ) → has i first_two ≡ true → g.cell i ≡ none)
    × SameElse first_two two_chains g
    × (g.freed ≡ 5 ∷ [])
free-gone_example = free-gone two_chains 5 first_two 3 (omega arith) two_chains-IsChain
