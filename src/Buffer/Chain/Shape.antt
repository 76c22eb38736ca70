-- ===== src/Buffer/Chain/Shape.antt =====
-- The shape of a chain of buffers on the heap (libroar/buffer.c), and the bytes that it holds.
use Prim.Native.Nat.{bit_and}
use roaraudio.Prelude.{
  ℕ, ◌+◌, ◌^◌, ◌≤◌, ◌<◌, ◌≡◌, Bool, true, false, ◌||◌, Option, none, some, List, [], ◌∷◌, ◌++◌,
  ◌==◌, length, arith, if◌then◌else◌,
}
use roaraudio.Status.{ok}
use roaraudio.Memory.{slice}
use roaraudio.Buffer.{Buffer, Ptr, flag_nofree}
use roaraudio.Buffer.Chain.{Heap, update, done, load, store, delete, release}

-- the structs of a chain with their addresses, in order
abbrev pub Cells : Type 0
Cells = List (ℕ × Buffer)

abbrev pub has : ℕ → Cells → Bool
has a [] = false
has a ((c, b) ∷ xs) = (a == c) || has a xs

-- From `p` the `next` pointers lead through the distinct structs `xs` to NULL.
abbrev pub IsChain : Heap → Ptr → Cells → Type 0
IsChain h p [] = p ≡ none
IsChain h p ((a, b) ∷ xs) =
    (p ≡ some a) × (h.cell a ≡ some b) × (has a xs ≡ false) × IsChain h b.next xs

-- The user's part of each struct lies within its block.
abbrev pub InBlock : Buffer → Type 0
InBlock b = (b.user_off + b.user_len ≤ length b.block) × (length b.block < 2 ^ 62)

abbrev pub AllInBlock : Cells → Type 0
AllInBlock [] = Unit {0}
AllInBlock ((a, b) ∷ xs) = InBlock b × AllInBlock xs

-- the user's bytes, in order
abbrev pub content : Cells → List ℕ
content [] = []
content ((a, b) ∷ xs) = slice b.block b.user_off b.user_len ++ content xs

-- `g` differs from `h` at most at the addresses of `xs`.
abbrev pub SameElse : Cells → Heap → Heap → Type 0
SameElse xs h g = (a : ℕ) → has a xs ≡ false → g.cell a ≡ h.cell a

-- A chain survives a change that spares its structs.
pub frame :
    (h g : Heap) (p : Ptr) (xs : Cells)
    → IsChain h p xs
    → ((a : ℕ) → has a xs ≡ true → g.cell a ≡ h.cell a)
    → IsChain g p xs
frame h g p [] c same = c
frame h g p ((a, b) ∷ xs) c same =
    (c.0, ground (arith, same a), c.2, frame h g b.next xs c.3 (λ i m. same i (ground arith)))

pub frame-update :
    (h : Heap) (p : Ptr) (xs : Cells) (a : ℕ) (b : Option Buffer) (freed : List ℕ)
    → IsChain h p xs
    → has a xs ≡ false
    → IsChain (record { cell = update h.cell a b; freed = freed }) p xs
frame-update h p xs a b freed c out =
    frame h (record { cell = update h.cell a b; freed = freed }) p xs c (λ i m. ground arith)

-- Accesses to a struct that is there.
module _ (h : Heap) (a : ℕ) (b : Buffer) (at : h.cell a ≡ some b) where
  pub load-at : load a h ≡ done b h
  unfolding load
  load-at = rw (at, load)

  pub store-at : (c : Buffer) → store a c h ≡ done tt (record h { cell = update h.cell a (some c) })
  unfolding store
  store-at c = rw (at, store)

  -- what `delete` adds to the blocks that are given back
  abbrev pub freed_by : List ℕ
  freed_by = if bit_and b.flags flag_nofree == 1 then h.freed else a ∷ h.freed

  abbrev pub without : Heap
  without = record { cell = update h.cell a none; freed = freed_by }

  pub delete-at : delete (some a) h ≡ done (ok, b.next) without
  unfolding delete release
  delete-at = rw load-at
