-- ===== src/Meta/Tests.antt =====
-- The functions of roard/meta.c on a table with one input and one output stream.
use roaraudio.Prelude.{
  ℕ, zero, suc, ◌≤◌, ◌≡◌, ◌≢◌, ◌↔◌, refl, sym, true, false, Option, none, some, List, [], ◌∷◌, map,
  arith, length, replicate, get_elem?,
}
use roaraudio.Status.{Status, ok}
use roaraudio.Meta.{
  Slot, Stream, Table, done, fault, empty_slot, stream_at, meta_add, meta_set, meta_get, meta_clear,
}
use roaraudio.Meta.Slots.{IsMeta}
use roaraudio.Meta.Table.{meta_get-meta_set, meta_clear-fault}
use roaraudio.Meta.Keep.{AllMeta, to_set, change-AllMeta}
use roaraudio.Meta.Finalize.{copy_streams, meta_finalize}
use roaraudio.Meta.Finalize.Gather.{refresh}
use roaraudio.Meta.Finalize.Update.{meta_finalize-gather}

-- a title and an artist
abbrev title : Slot
title = record { kind = 1; key = []; value = some (70 ∷ 71 ∷ []) }

abbrev artist : Slot
artist = record { kind = 2; key = 72 ∷ []; value = some (73 ∷ []) }

abbrev player : Stream
player = record { dir = 1; flags = 16; slots = title ∷ artist ∷ replicate 14 empty_slot }

abbrev monitor : Stream
monitor = record { dir = 3; flags = 16; slots = replicate 16 title }

abbrev streams : Table
streams = some player ∷ some monitor ∷ replicate 62 none

title-IsMeta : (title.kind ≢ 0 → title.value ≢ none) × (length title.key ≤ 32)
title-IsMeta = (λ _ e. cc, omega arith)

empty-IsMeta : (n : ℕ) → IsMeta (replicate n empty_slot)
empty-IsMeta zero = tt
empty-IsMeta (suc n) = ((λ some_kind. absurd (some_kind refl), omega arith), empty-IsMeta n)

titles-IsMeta : (n : ℕ) → IsMeta (replicate n title)
titles-IsMeta zero = tt
titles-IsMeta (suc n) = (title-IsMeta, titles-IsMeta n)

streams-AllMeta : AllMeta streams
streams-AllMeta = (
  (refl, (title-IsMeta, ((λ _ e. cc, omega arith), empty-IsMeta 14))),
  ((refl, titles-IsMeta 16), tt),
)

meta_get-meta_set_example :
    (g' : Table) × (meta_set true 0 1 none (9 ∷ []) streams ≡ done (ok, g'))
    × (meta_get 0 1 none 78 g' ≡ done (some (9 ∷ [])))
    × (meta_get 0 1 none 78 g' ≡ done (some (9 ∷ [])))
    × ((other len' : ℕ) (name' : Option (List ℕ))
        → other ≢ 1
        → other ≢ 0
        → meta_get 0 other name' len' g' ≡ meta_get 0 other name' len' streams)
    × ((j : ℕ) → j ≢ 0 → get_elem? g' j ≡ get_elem? streams j)
meta_get-meta_set_example =
    meta_get-meta_set streams 0 1 78 player none (9 ∷ []) refl refl (omega arith) (omega arith)
      (omega arith)

change-AllMeta_example :
    (r : Status) × (g' : Table) × (meta_set false 0 2 none (9 ∷ []) streams ≡ done (r, g'))
    × AllMeta g'
    × (length g' ≡ 64)
change-AllMeta_example =
    change-AllMeta (to_set false 2 none (9 ∷ [])) streams 0 streams-AllMeta refl (omega arith)

meta_clear-fault_example :
    ((meta_clear 64 streams ≡ fault) ↔ (◌≡◌ {A = ℕ} 64 64))
    × ((meta_get 64 1 none 78 streams ≡ fault) ↔ (64 ≤ 64))
meta_clear-fault_example = meta_clear-fault streams 64 1 78 none refl

meta_finalize-gather_example :
    meta_finalize true 0 streams ≡ done (map (refresh (title ∷ artist ∷ [])) streams, 1 ∷ [])
meta_finalize-gather_example =
    meta_finalize-gather streams 0 player streams-AllMeta refl (sym, ((λ _. refl), tt)) refl refl

-- a bidirectional stream whose slots were cleared
abbrev both : List Slot → Stream
both xs = record { dir = 9; flags = 16; slots = xs }

-- A stream that is an input and an output copies the entries it was given before its own turn again
-- and again, until all of its slots are in use.
copy_streams-own :
    copy_streams true 1 2 0 (some player ∷ some (both (replicate 16 empty_slot)) ∷ [])
    ≡ done (
        some player
        ∷ some (
            both (
              title ∷ artist ∷ title ∷ artist ∷ title ∷ artist ∷ title ∷ artist ∷ title ∷ artist
              ∷ title ∷ artist ∷ title ∷ artist ∷ title ∷ artist ∷ []))
        ∷ [])
unfolding copy_streams stream_at meta_add
copy_streams-own = refl
