-- ===== src/Keyval/Tests.antt =====
-- Runs of the theorems on keys and values.
use roaraudio.Prelude.{ℕ, ◌≡◌, refl, true, false, Option, none, some, [], ◌∷◌, length}
use roaraudio.Meta.{done}
use roaraudio.Text.{Chars, codes}
use roaraudio.Keyval.{Split, split, lookup, count_segments, text_at, or_default}
use roaraudio.Keyval.Fill.{IsFilled, split-IsFilled}
use roaraudio.Keyval.Lookup.{lookup-split}

abbrev options : Chars
options = codes "rate=48000, mono dev:a=b"

-- Of a second delimiter in a segment the value is what follows the last.
split_test :
    split true options none none false
    ≡ done (
        some (record {
          len = 3;
          kvs =
              record { key = some 0; value = some 5 }
              ∷ record { key = some 12; value = none }
              ∷ record { key = some 17; value = some 23 }
              ∷ record { key = none; value = none }
              ∷ [];
          str =
              114 ∷ 97 ∷ 116 ∷ 101 ∷ 0 ∷ 52 ∷ 56 ∷ 48 ∷ 48 ∷ 48 ∷ 0 ∷ 32 ∷ 109 ∷ 111 ∷ 110 ∷ 111 ∷ 0
              ∷ 100 ∷ 101 ∷ 118 ∷ 0 ∷ 97 ∷ 0 ∷ 98 ∷ [];
        }))
unfolding split
split_test = refl

split-IsFilled_example :
    (r : Split) × (split true options none none false ≡ done (some r))
    × (r.len ≡ count_segments (or_default none (32 ∷ 9 ∷ 44 ∷ [])) false 0 options)
    × IsFilled r.len r.len r.kvs
    × (length r.str ≡ 24)
split-IsFilled_example = split-IsFilled options none none

lookup-split_example :
    (r : Split) × (split true options none none false ≡ done (some r))
    × (result : Option ℕ) × (lookup (text_at r.str) r.kvs (codes "mono") none true ≡ done result)
    × (lookup (text_at r.str) r.kvs (codes "mono") (some r.len) true ≡ done result)
lookup-split_example = lookup-split options none none (codes "mono") true
