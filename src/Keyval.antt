-- ===== src/Keyval.antt =====
-- libroar/keyval.c: text of the form `key=value key=value` taken apart in place, and the search for a
-- key. `kv`, `str`, `key` and what `len` promises of the array are given; a pointer into `str` is its
-- offset.
pub mod Fill
pub mod Lookup
mod Tests
use roaraudio.Prelude.{
  ℕ, zero, suc, ◌+◌, ◌-◌, Bool, true, false, Option, none, some, List, [], ◌∷◌, ◌++◌, ◌==◌, ltb,
  not, ◌&&◌, ◌||◌, if◌then◌else◌, length, drop, set, get_elem?, replicate,
}
use roaraudio.Meta.{Run, done, fault, ◌>>=◌, and_then, pure}
use roaraudio.Text.{Chars, codes, same_text, same_letters}

-- `struct roar_keyval`, with its two pointers
pub record Keyval (P : Type 0) : Type 0 where
  pub key : Option P
  pub value : Option P

-- `is_in`
abbrev pub is_in : ℕ → Chars → Bool
is_in c [] = false
is_in c (d ∷ ds) = (d == c) || is_in c ds

-- The first loop of roar_keyval_split; `quote` stays 0.
pub count_segments : (fdel : Chars) → (last_was_seg : Bool) → (len : ℕ) → Chars → ℕ
count_segments fdel last len [] = len
count_segments fdel last len (c ∷ cs) =
    count_segments fdel (not (is_in c fdel)) (if last || is_in c fdel then len else len + 1) cs

-- A write to `kvs[n]`.
abbrev pub store : List (Keyval ℕ) → ℕ → Keyval ℕ → Run (List (Keyval ℕ))
store kvs n e = if ltb n (length kvs) then done (set kvs n e) else fault

-- `kvs[pos].value = value`; `next` is `pos + 1`.
abbrev pub store_value : List (Keyval ℕ) → (next value : ℕ) → Run (List (Keyval ℕ))
store_value kvs zero value = fault
store_value kvs (suc pos) value = elim (get_elem? kvs pos) [
  | none ↦ fault
  | some e ↦ store kvs pos (record e { value = some value })
]

-- What the second loop keeps: `last_was_seg`, `pos + 1` and the array; `char` is what then stands at
-- `*sp`.
pub record Step : Type 0 where
  pub last_was_seg : Bool
  pub next : ℕ
  pub kvs : List (Keyval ℕ)
  pub char : ℕ

-- The body of the second loop, at the character `c` with offset `i`.
unfoldable pub fill_step :
    (fdel kdel : Chars) → (i : ℕ) → (last : Bool) → (next : ℕ) → List (Keyval ℕ) → ℕ → Run Step
fill_step fdel kdel i last next kvs c =
    if last
    then if is_in c fdel
      then done (record { last_was_seg = false; next = next; kvs = kvs; char = 0 })
      else if is_in c kdel
      then (do
        kvs' ← store_value kvs next (i + 1)
        pure (record { last_was_seg = true; next = next; kvs = kvs'; char = 0 }))
      else done (record { last_was_seg = true; next = next; kvs = kvs; char = c })
    else if is_in c fdel
    then done (record { last_was_seg = false; next = next; kvs = kvs; char = c })
    else (do
      kvs' ← store kvs next (record { key = some i; value = none })
      pure (record { last_was_seg = true; next = next + 1; kvs = kvs'; char = c }))

-- The second loop: the array and the string after it.
pub fill :
    (fdel kdel : Chars)
    → (i : ℕ) → (last : Bool) → (next : ℕ) → List (Keyval ℕ)
    → Chars
    → Run (List (Keyval ℕ) × Chars)
unfolding fill_step
fill fdel kdel i last next kvs [] = done (kvs, [])
fill fdel kdel i last next kvs (c ∷ cs) = do
  s ← fill_step fdel kdel i last next kvs c
  r ← fill fdel kdel (i + 1) s.last_was_seg s.next s.kvs cs
  pure (r.0, s.char ∷ r.1)

abbrev pub null : Keyval ℕ
null = record { key = none; value = none }

abbrev pub or_default : Option Chars → Chars → Chars
or_default none d = d
or_default (some s) d = s

-- What roar_keyval_split gives: its result, the array at `*kv`, and `str`.
pub record Split : Type 0 where
  pub len : ℕ
  pub kvs : List (Keyval ℕ)
  pub str : Chars

-- `roar_keyval_split`; `none` is -1. The array is read as zeroed before it is filled, of which only
-- the entry at `len` is relied upon. NULL for `fdel` or `kdel` is `none`.
unfoldable pub split :
    (memory : Bool) → Chars → (fdel kdel : Option Chars) → (quotes : Bool) → Run (Option Split)
unfolding count_segments fill
split memory str fdel kdel quotes =
    let f = or_default fdel (32 ∷ 9 ∷ 44 ∷ []) in
    let k = or_default kdel (codes "=:") in
    let len = count_segments f false 0 str in
    if quotes then done none else if not memory then done none else (do
      r ← fill f k 0 false 0 (replicate (len + 1) null) str
      pure (some (record { len = len; kvs = r.0; str = r.1 })))

module _ {P : Type 0} (text : P → Chars) (same : Chars → Chars → Bool) (key : Chars) where
  -- The loop of roar_keyval_lookup with a `len`, from the entry `i` on; the result is an index.
  -- `sc(key, NULL)` is a fault.
  pub lookup_len : (n i : ℕ) → List (Keyval P) → Run (Option ℕ)
  lookup_len zero i kvs = done none
  lookup_len (suc n) i [] = fault
  lookup_len (suc n) i (e ∷ es) =
      let rest = lookup_len n (i + 1) es in
      elim e.key [ none ↦ fault | some k ↦ if same key (text k) then done (some i) else rest ]

  -- The loop with a `len` of -1.
  pub lookup_end : (i : ℕ) → List (Keyval P) → Run (Option ℕ)
  lookup_end i [] = fault
  lookup_end i (e ∷ es) =
      let rest = lookup_end (i + 1) es in
      elim e.key [ none ↦ done none | some k ↦ if same key (text k) then done (some i) else rest ]

abbrev pub up_to_nul : Chars → Chars
up_to_nul [] = []
up_to_nul (c ∷ cs) = if c == 0 then [] else c ∷ up_to_nul cs

-- The string at an offset of `str`.
abbrev pub text_at : Chars → ℕ → Chars
text_at str i = up_to_nul (drop i str)

-- `roar_keyval_lookup`; a `len` of -1 is `none`.
unfoldable pub lookup :
    {P : Type 0}
    → (text : P → Chars) → List (Keyval P)
    → Chars
    → (len : Option ℕ) → (casesens : Bool) → Run (Option ℕ)
unfolding lookup_len lookup_end
lookup text kvs key none casesens =
    lookup_end text (if casesens then same_text else same_letters) key 0 kvs
lookup text kvs key (some n) casesens =
    lookup_len text (if casesens then same_text else same_letters) key n 0 kvs
