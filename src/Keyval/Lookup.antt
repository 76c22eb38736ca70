-- ===== src/Keyval/Lookup.antt =====
-- The two forms of roar_keyval_lookup on what roar_keyval_split gives (libroar/keyval.c).
use roaraudio.Prelude.{
  ℕ, zero, suc, ◌+◌, ◌<◌, ◌≡◌, refl, inl, inr, Bool, true, false, Option, none, some, List, [], ◌∷◌,
  if◌then◌else◌, get_elem?, arith, Bool-cases, Option-cases,
}
use roaraudio.Meta.{done}
use roaraudio.Text.{Chars, same_text, same_letters}
use roaraudio.Keyval.{Keyval, null, Split, split, lookup_len, lookup_end, lookup, text_at}
use roaraudio.Keyval.Fill.{has_key, split-IsFilled}

module _ (text : ℕ → Chars) (same : Chars → Chars → Bool) (key : Chars) where
  lookup_both :
      (n i : ℕ) (kvs : List (Keyval ℕ))
      → ((j : ℕ) → j < n → has_key (get_elem? kvs j) ≡ true)
      → get_elem? kvs n ≡ some null
      → (result : Option ℕ) × (lookup_end text same key i kvs ≡ done result)
        × (lookup_len text same key n i kvs ≡ done result)
  unfolding lookup_end lookup_len
  lookup_both zero i [] keys end = absurd (ground arith)
  lookup_both zero i (e ∷ es) keys end = (none, ground arith, refl)
  lookup_both (suc n) i [] keys end = absurd (ground arith)
  lookup_both (suc n) i (e ∷ es) keys end =
      let ih = lookup_both n (i + 1) es (λ j h. keys (suc j) (omega arith)) end in
      elim (Option-cases e.key) [
        | inl gone ↦ absurd (ground (arith, keys 0 (omega arith)))
        | inr (k, p) ↦ elim (Bool-cases (same key (text k))) [
          | inl found ↦ (some i, rw p (rw found refl), rw p (rw found refl))
          | inr other ↦ (ih.0, rw p (rw other ih.1), rw p (rw other ih.2))
        ]
      ]

-- On what `roar_keyval_split` gives, `roar_keyval_lookup` never reads outside the array nor looks at
-- NULL as a key, and it finds the same with the length that was returned and with -1.
pub lookup-split :
    (str : Chars) (fdel kdel : Option Chars) (key : Chars) (casesens : Bool)
    → (r : Split) × (split true str fdel kdel false ≡ done (some r))
      × (result : Option ℕ) × (lookup (text_at r.str) r.kvs key none casesens ≡ done result)
      × (lookup (text_at r.str) r.kvs key (some r.len) casesens ≡ done result)
unfolding lookup
lookup-split str fdel kdel key casesens =
    let s = split-IsFilled str fdel kdel in
    let b =
      lookup_both (text_at s.0.str) (if casesens then same_text else same_letters) key s.0.len 0
        s.0.kvs s.3.keys s.3.end in
    (s.0, s.1, b.0, b.1, b.2)
