-- ===== src/Buffer/Chain/Sums.antt =====
-- roar_buffer_ring_stats of libroar/buffer.c counts the structs and the user's bytes of a chain.
use roaraudio.Prelude.{
  ℕ, zero, suc, ◌+◌, ◌*◌, ◌<◌, ◌≡◌, ◌∙◌, ap, some, [], ◌∷◌, length, arith, length-append,
}
use roaraudio.Memory.{slice, length-slice}
use roaraudio.Buffer.{Ptr}
use roaraudio.Buffer.Chain.{Heap, done, Stats, stats_loop, ring_stats}
use roaraudio.Buffer.Chain.Shape.{Cells, IsChain, AllInBlock, content, load-at}

-- the sizes that the structs of a chain were made with
abbrev pub sizes : Cells → ℕ
sizes [] = 0
sizes ((a, b) ∷ xs) = b.len + sizes xs

abbrev plus : Stats → Cells → ℕ → Stats
plus st xs struct_size = record {
  parts = st.parts + length xs;
  bytes = st.bytes + length (content xs);
  memory_usage = st.memory_usage + (sizes xs + length xs * struct_size);
}

stats_loop-plus :
    (struct_size : ℕ) (h : Heap) (p : Ptr) (xs : Cells) (k : ℕ) (st : Stats)
    → length xs < k
    → IsChain h p xs
    → AllInBlock xs
    → stats_loop struct_size k p st h ≡ done (plus st xs struct_size) h
unfolding stats_loop
stats_loop-plus n h p xs zero st fuel c v = absurd (omega arith)
stats_loop-plus n h p [] (suc k) st fuel c v = rw c (ap (λ s. done s h) (ground arith))
stats_loop-plus n h p ((a, b) ∷ xs) (suc k) st fuel c v =
    let size = length-slice b.block b.user_off b.user_len v.0.0 in
    let all = length-append (slice b.block b.user_off b.user_len) (content xs) in
    rw (c.0, load-at h a b c.1)
      (stats_loop-plus n h b.next xs k _ (omega arith) c.3 v.1
        ∙ ap (λ s. done s h) (ground (arith, size, all)))

-- `roar_buffer_ring_stats` of a chain, the user's part of each struct lying within its block, gives
-- the number of its structs, the number of the bytes that
-- it holds, and the memory that structs and blocks take, and changes nothing. One round more than
-- the chain has structs is enough.
ring_stats-content :
    (struct_size : ℕ) (h : Heap) (a : ℕ) (xs : Cells) (fuel : ℕ)
    → length xs < fuel
    → IsChain h (some a) xs
    → AllInBlock xs
    → ring_stats struct_size fuel (some a) h
      ≡ done
          (some (record {
            parts = length xs;
            bytes = length (content xs);
            memory_usage = sizes xs + length xs * struct_size;
          }))
          h
unfolding ring_stats
ring_stats-content n h a xs fuel enough c v =
    rw
      (stats_loop-plus n h (some a) xs fuel (record { parts = 0; bytes = 0; memory_usage = 0 })
        enough c v)
      (ap (λ s. done (some s) h) (ground arith))
