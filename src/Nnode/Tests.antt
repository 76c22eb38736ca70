-- ===== src/Nnode/Tests.antt =====
-- Runs of the theorems on the address of a node.
use roaraudio.Prelude.{ℕ, ◌≡◌, refl, inr, inl, some, true, List, [], ◌∷◌, arith, replicate}
use roaraudio.Status.{ok}
use roaraudio.Nnode.{Nnode, bytes, to_blob, from_blob, cmp}
use roaraudio.Nnode.Blob.{from_blob-to_blob}

abbrev localhost : Nnode
localhost = record {
  socktype = 1;
  addr = bytes (127 ∷ 0 ∷ 0 ∷ 1 ∷ 0 ∷ 0 ∷ 0 ∷ 0 ∷ 0 ∷ 0 ∷ 0 ∷ 0 ∷ 0 ∷ 0 ∷ 0 ∷ 0 ∷ []);
}

from_blob-to_blob_example :
    (blob : List ℕ) × (used : ℕ) × (m : Nnode) × (to_blob localhost (replicate 20 9) 20
      ≡ (ok, blob, used))
    × (from_blob blob used ≡ some (m, used))
    × (cmp localhost m ≡ some true)
from_blob-to_blob_example =
    from_blob-to_blob localhost (replicate 20 9) 20 (inr (refl, inl refl)) (omega arith)
      (omega arith)
