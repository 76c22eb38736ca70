-- ===== src/Vio/BufferStore/Tests.antt =====
-- libroar/vio_buffer_store.c: a write behind another, and a read of part of two buffers.
use roaraudio.Prelude.{◌≡◌, refl, none, some, [], ◌∷◌, ◌++◌, arith, drop}
use roaraudio.Memory.{slice}
use roaraudio.Buffer.{vp}
use roaraudio.Buffer.Chain.{Heap, done}
use roaraudio.Buffer.Chain.Shape.{Cells, content}
use roaraudio.Buffer.Chain.Tests.{two_chains, first_two, third}
use roaraudio.Vio.BufferStore.{Store, store_read, store_write}
use roaraudio.Vio.BufferStore.Laws.{IsStore, store_write-append, store_read-take}

-- the third buffer was written, the first two are to be read
abbrev kept : Store
kept = record { in_buf = some 9; out_buf = some 5 }

kept-IsStore : IsStore two_chains kept third first_two
kept-IsStore = record {
  written = (refl, refl, refl, refl);
  pending = (refl, refl, refl, (refl, refl, refl, refl));
  written_in = ((omega arith, omega arith), tt);
  pending_in = ((omega arith, omega arith), ((omega arith, omega arith), tt));
  apart = λ i m. ground arith;
  plain = (refl, tt);
}

store_write-append_example :
    (g : Heap) × (self' : Store) × (zs : Cells) × (store_write 2
        (some (record { address = 11; info = vp none }))
        (some (0 ∷ 0 ∷ []))
        (1 ∷ 2 ∷ [])
        kept
        two_chains
      ≡ done (some 2, self') g)
    × IsStore g self' zs first_two
    × (content zs ≡ content third ++ (1 ∷ 2 ∷ []))
store_write-append_example =
    store_write-append 2 two_chains (record { address = 11; info = vp none }) (0 ∷ 0 ∷ [])
      (1 ∷ 2 ∷ []) kept third first_two kept-IsStore refl (omega arith) refl (omega arith)

store_read-take_example :
    (g : Heap) × (self' : Store) × (zs : Cells) × (store_read 3 3 kept two_chains
      ≡ done (some (50 ∷ 51 ∷ 70 ∷ []), self') g)
    × IsStore g self' third zs
    × (content zs ≡ drop 3 (content first_two))
unfolding slice
store_read-take_example =
    store_read-take 3 two_chains 3 kept third first_two kept-IsStore (omega arith)
