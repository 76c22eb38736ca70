-- ===== src/Keyval/Fill.antt =====
-- The two loops of roar_keyval_split meet (libroar/keyval.c).
use roaraudio.Prelude.{
  ℕ, zero, suc, ◌+◌, ◌≤◌, ◌<◌, ◌≡◌, ◌≢◌, refl, ap, ◌∙◌, inl, inr, Bool, true, false, Option, none,
  some, List, [], ◌∷◌, ◌==◌, not, ◌||◌, if◌then◌else◌, length, set, get_elem?, replicate, arith,
  length-set, length-replicate, lt→ltb, ==-ne, Bool-cases,
}
use mathlib.Core.Path.{subst}
use roaraudio.Meta.{Run, done}
use roaraudio.Text.{Chars}
use roaraudio.Prelude.Places.{get_elem?-set, get_elem?-replicate}
use roaraudio.Keyval.{
  Keyval, is_in, count_segments, store, store_value, Step, fill_step, fill, null, Split, split,
  or_default,
}

abbrev pub key_in : Option (Keyval ℕ) → Option ℕ
key_in none = none
key_in (some e) = e.key

abbrev pub has_key : Option (Keyval ℕ) → Bool
has_key none = false
has_key (some e) = elim e.key [ none ↦ false | some k ↦ true ]

-- An array of `n` places and one more, the first `next` with a key and that one without.
pub record IsFilled (n next : ℕ) (kvs : List (Keyval ℕ)) : Type 0 where
  pub size : length kvs ≡ n + 1
  pub keys : (j : ℕ) → j < next → has_key (get_elem? kvs j) ≡ true
  pub end : get_elem? kvs n ≡ some null

count_grows :
    (fdel : Chars) (last : Bool) (len : ℕ) (cs : Chars) → len ≤ count_segments fdel last len cs
unfolding count_segments
count_grows fdel last len [] = omega arith
count_grows fdel last len (c ∷ cs) =
    let next = if last || is_in c fdel then len else len + 1 in
    let larger : len ≤ next = ground arith in
    omega (arith, larger, count_grows fdel (not (is_in c fdel)) next cs)

-- A write of an entry with a key.
write-IsFilled :
    (n next next' pos : ℕ) (kvs : List (Keyval ℕ)) (e : Keyval ℕ)
    → IsFilled n next kvs
    → pos < n
    → has_key (some e) ≡ true
    → ((j : ℕ) → j < next' → j ≢ pos → j < next)
    → IsFilled n next' (set kvs pos e)
write-IsFilled n next next' pos kvs e v inside keyed from = record {
  size = length-set kvs pos e ∙ v.size;
  keys = λ j h. elim (Bool-cases (pos == j)) [
    | inl same ↦
        ap has_key {y = some e} (get_elem?-set kvs pos j e (omega (arith, v.size)) ∙ rw same refl)
        ∙ keyed
    | inr other ↦
        ap has_key {y = get_elem? kvs j}
          (get_elem?-set kvs pos j e (omega (arith, v.size)) ∙ rw other refl)
        ∙ v.keys j (from j h (ground arith))
  ];
  end =
      get_elem?-set kvs pos n e (omega (arith, v.size))
      ∙ rw (==-ne pos n (λ p. omega (arith, p))) v.end;
}

store_lem :
    (n next : ℕ) (kvs : List (Keyval ℕ)) (e : Keyval ℕ)
    → IsFilled n next kvs
    → next < n
    → has_key (some e) ≡ true
    → (kvs' : List (Keyval ℕ)) × (store kvs next e ≡ done kvs') × IsFilled n (next + 1) kvs'
store_lem n next kvs e v inside keyed = (
  set kvs next e,
  rw (lt→ltb next (length kvs) (omega (arith, v.size))) refl,
  write-IsFilled n next (next + 1) next kvs e v inside keyed (λ j h ne. omega (arith, ne)),
)

has_key_lem :
    (o : Option (Keyval ℕ))
    → has_key o ≡ true
    → (e : Keyval ℕ) × (o ≡ some e) × (has_key (some e) ≡ true)
has_key_lem none h = absurd (ground arith)
has_key_lem (some e) h = (e, refl, h)

store_value_run :
    (kvs : List (Keyval ℕ)) (pos value : ℕ) (e : Keyval ℕ)
    → get_elem? kvs pos ≡ some e
    → pos < length kvs
    → store_value kvs (suc pos) value ≡ done (set kvs pos (record e { value = some value }))
store_value_run kvs pos value e there inside =
    rw (there, store_value) (rw (lt→ltb pos (length kvs) inside) refl)

store_value_lem :
    (n next value : ℕ) (kvs : List (Keyval ℕ))
    → IsFilled n next kvs
    → 0 < next
    → next ≤ n
    → (kvs' : List (Keyval ℕ)) × (store_value kvs next value ≡ done kvs') × IsFilled n next kvs'
store_value_lem n zero value kvs v started small = absurd (omega arith)
store_value_lem n (suc pos) value kvs v started small =
    let r = has_key_lem (get_elem? kvs pos) (v.keys pos (omega arith)) in
    let e' = record r.0 { value = some value } in
    (
      set kvs pos e',
      store_value_run kvs pos value r.0 r.1 (omega (arith, v.size)),
      write-IsFilled n (suc pos) (suc pos) pos kvs e' v (omega arith) r.2
          (λ j h ne. omega (arith, h)),
    )

-- What a step gives: the array filled as far as the first loop had counted.
abbrev Stepped : (fdel : Chars) → (n : ℕ) → (last : Bool) → (next c : ℕ) → Run Step → Type 0
Stepped fdel n last next c run =
    (s : Step) × (run ≡ done s)
    × IsFilled n s.next s.kvs
    × (s.last_was_seg ≡ true → 0 < s.next)
    × (s.last_was_seg ≡ not (is_in c fdel))
    × (s.next ≡ (if last || is_in c fdel then next else next + 1))

step_lem :
    (fdel kdel : Chars) (n i : ℕ) (last : Bool) (next : ℕ) (kvs : List (Keyval ℕ)) (c : ℕ)
    → IsFilled n next kvs
    → (if last || is_in c fdel then next else next + 1) ≤ n
    → (last ≡ true → 0 < next)
    → Stepped fdel n last next c (fill_step fdel kdel i last next kvs c)
unfolding fill_step
step_lem fdel kdel n i true next kvs c v small started = elim (Bool-cases (is_in c fdel)) [
  | inl d ↦ (
    record { last_was_seg = false; next = next; kvs = kvs; char = 0 },
    rw d refl,
    v,
    λ h. absurd (ground arith),
    rw d refl,
    refl,
  )
  | inr d ↦ elim (Bool-cases (is_in c kdel)) [
    | inl k ↦
        let r = store_value_lem n next (i + 1) kvs v (started refl) small in
        (
          record { last_was_seg = true; next = next; kvs = r.0; char = 0 },
          rw (d, k, r.1) refl,
          r.2,
          started,
          rw d refl,
          refl,
        )
    | inr k ↦ (
      record { last_was_seg = true; next = next; kvs = kvs; char = c },
      rw (d, k) refl,
      v,
      started,
      rw d refl,
      refl,
    )
  ]
]
step_lem fdel kdel n i false next kvs c v small started = elim (Bool-cases (is_in c fdel)) [
  | inl d ↦ (
    record { last_was_seg = false; next = next; kvs = kvs; char = c },
    rw d refl,
    v,
    λ h. absurd (ground arith),
    rw d refl,
    rw d refl,
  )
  | inr d ↦
      let r = store_lem n next kvs (record { key = some i; value = none }) v (ground arith) refl in
      (
        record { last_was_seg = true; next = next + 1; kvs = r.0; char = c },
        rw (d, r.1) refl,
        r.2,
        λ h. omega arith,
        rw d refl,
        rw d refl,
      )
]

pub fill_lem :
    (fdel kdel : Chars) (n i : ℕ) (last : Bool) (next : ℕ) (kvs : List (Keyval ℕ)) (cs : Chars)
    → IsFilled n next kvs
    → count_segments fdel last next cs ≡ n
    → (last ≡ true → 0 < next)
    → (kvs' : List (Keyval ℕ)) × (cs' : Chars) × (fill fdel kdel i last next kvs cs
        ≡ done (kvs', cs'))
      × IsFilled n n kvs'
      × (length cs' ≡ length cs)
unfolding count_segments fill
fill_lem fdel kdel n i last next kvs [] v e started =
    let same : next ≡ n = e in (kvs, [], refl, subst (λ m. IsFilled n m kvs) same v, refl)
fill_lem fdel kdel n i last next kvs (c ∷ cs) v e started =
    let small =
      count_grows fdel (not (is_in c fdel)) (if last || is_in c fdel then next else next + 1) cs in
    let t = step_lem fdel kdel n i last next kvs c v (omega (arith, small, e)) started in
    let counted : count_segments fdel t.0.last_was_seg t.0.next cs ≡ n = rw (t.4, t.5) e in
    let r = fill_lem fdel kdel n (i + 1) t.0.last_was_seg t.0.next t.0.kvs cs t.2 counted t.3 in
    (r.0, t.0.char ∷ r.1, rw (t.1, r.2) refl, r.3, ap suc r.4)

fresh : (n : ℕ) → IsFilled n 0 (replicate (n + 1) null)
fresh n = record {
  size = length-replicate (n + 1) null;
  keys = λ j h. absurd (omega arith);
  end = get_elem?-replicate (n + 1) n null (omega arith);
}

-- `roar_keyval_split` without quotes, and with memory: it never writes outside the array that it
-- allocated for the segments it counted, whatever the string; it fills each place but the last
-- with a key and leaves NULL in that one, and the string keeps its length.
pub split-IsFilled :
    (str : Chars) (fdel kdel : Option Chars)
    → (r : Split) × (split true str fdel kdel false ≡ done (some r))
      × (r.len ≡ count_segments (or_default fdel (32 ∷ 9 ∷ 44 ∷ [])) false 0 str)
      × IsFilled r.len r.len r.kvs
      × (length r.str ≡ length str)
unfolding split
split-IsFilled str fdel kdel =
    let f = or_default fdel (32 ∷ 9 ∷ 44 ∷ []) in
    let k = or_default kdel (61 ∷ 58 ∷ []) in
    let n = count_segments f false 0 str in
    let r =
      fill_lem f k n 0 false 0 (replicate (n + 1) null) str (fresh n) refl
        (λ h. absurd (ground arith)) in
    (record { len = n; kvs = r.0; str = r.1 }, rw r.2 refl, refl, r.3, r.4)
