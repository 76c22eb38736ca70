-- ===== src/Vio/Retry.antt =====
-- roar_vio_re_read of libroar/vio.c: reads again where the backend gave fewer bytes than asked for.
-- Each round that goes on takes a byte or more, so more fuel than bytes are asked for is enough.
use roaraudio.Prelude.{
  ℕ, zero, suc, ◌+◌, ◌-◌, ◌≤◌, ◌<◌, ◌≡◌, refl, sym, ◌∙◌, ap, true, Option, none, some, List, [],
  ◌∷◌, ◌++◌, ◌==◌, if◌then◌else◌, arith, length, take, drop, length-take, ==-ne,
}
use native.Mathlib.Decide.{ℕ_discrete}
use mathlib.Core.List.{append-nil, append_assoc}
use roaraudio.Prelude.TakeDrop.{drop-drop}
use roaraudio.Vio.{VioCalls, vio_read}

module _ {S : Type 0} where
  -- What follows a read: `again` is the next round. `count` is taken not to be less than what the
  -- backend gives.
  abbrev pub after_read :
      (again : S → ℕ → List ℕ → Option (Option (List ℕ) × S))
      → ℕ
      → List ℕ
      → Option (List ℕ) × S
      → Option (Option (List ℕ) × S)
  after_read again count got (none, s) = some ((if length got == 0 then none else some got), s)
  after_read again count got (some bytes, s) =
      if length bytes == 0
      then some (some got, s)
      else if count - length bytes == 0
      then some (some (got ++ bytes), s)
      else again s (count - length bytes) (got ++ bytes)

  -- The loop with what it has got so far; the outer `none` is the end of the fuel.
  pub re_read_loop :
      Option (VioCalls S) → (fuel : ℕ) → S → ℕ → List ℕ → Option (Option (List ℕ) × S)
  re_read_loop calls zero s count got = none
  re_read_loop calls (suc fuel) s count got =
      after_read (λ s' count' got'. re_read_loop calls fuel s' count' got') count got
        (vio_read calls s count)

  -- `roar_vio_re_read` of a `vio` that is not NULL; `inst` is the backend behind it.
  unfoldable pub re_read :
      (fuel : ℕ) → (inst : Option (VioCalls S)) → S → ℕ → Option (Option (List ℕ) × S)
  unfolding re_read_loop
  re_read fuel none s count = some (none, s)
  re_read fuel (some vio) s count = re_read_loop (some vio) fuel s count []

-- A backend that may give fewer bytes than it is asked for, but none only if none are asked for or
-- none are left.
pub record Source (S : Type 0) : Type 0 where
  pub calls : VioCalls S
  pub pending : S → List ℕ
  pub gives :
      (s : S) (count : ℕ)
      → (k : ℕ) × (s' : S) × (k ≤ count)
        × (k ≤ length (pending s))
        × (0 < count → 0 < length (pending s) → 0 < k)
        × (vio_read (some calls) s count ≡ (some (take k (pending s)), s'))
        × (pending s' ≡ drop k (pending s))

take_split : (m n k : ℕ) (xs : List ℕ) → k ≡ m + n → take m xs ++ take n (drop m xs) ≡ take k xs
take_split zero n k xs e = ap (λ i. take i xs) (omega arith)
take_split (suc m) n zero xs e = absurd (omega arith)
take_split (suc m) zero (suc k) [] e = refl
take_split (suc m) (suc n) (suc k) [] e = refl
take_split (suc m) n (suc k) (x ∷ xs) e = ap (λ t. x ∷ t) (take_split m n k xs (omega arith))

no_take : (count : ℕ) (xs : List ℕ) → length (take count xs) ≡ 0 → take count xs ≡ []
no_take zero xs e = refl
no_take (suc count) [] e = refl
no_take (suc count) (x ∷ xs) e = absurd (omega (arith, e))

no_drop : (count : ℕ) (xs : List ℕ) → length (take count xs) ≡ 0 → drop count xs ≡ xs
no_drop zero xs e = refl
no_drop (suc count) [] e = refl
no_drop (suc count) (x ∷ xs) e = absurd (omega (arith, e))

is_zero : (n : ℕ) → n ≡ 0 → (n == 0) ≡ true
is_zero n e = ground arith

-- What the loop leaves.
record Got {S : Type 0} (src : Source S) (s : S) (count : ℕ) (got : List ℕ)
    (r : Option (Option (List ℕ) × S)) : Type 0 where
  state : S
  ends : r ≡ some (some (got ++ take count (src.pending s)), state)
  rest : src.pending state ≡ drop count (src.pending s)

module _ {S : Type 0} (src : Source S) where
  re_read_loop-Got :
      (fuel : ℕ) (s : S) (count : ℕ) (got : List ℕ)
      → count < fuel
      → Got src s count got (re_read_loop (some src.calls) fuel s count got)
  unfolding re_read_loop
  re_read_loop-Got zero s count got enough = absurd (omega arith)
  re_read_loop-Got (suc fuel) s count got enough =
      let xs = src.pending s in
      let g = src.gives s count in
      let k = g.0 in
      let size : length (take k xs) ≡ k = omega (arith, length-take k xs, g.3) in
      elim (ℕ_discrete k 0) [
        | yes none_given ↦
            let none_left : length (take count xs) ≡ 0 =
              ground (arith, g.4, length-take count xs) in
            record {
              state = g.1;
              ends =
                  rw (g.5, size, is_zero k none_given)
                    (ap (λ l. some (some l, g.1))
                      (sym (append-nil got)
                        ∙ ap (λ l. got ++ l) (sym (no_take count xs none_left))));
              rest = g.6 ∙ ap (λ i. drop i xs) none_given ∙ sym (no_drop count xs none_left);
            }
        | no some_given ↦ elim (ℕ_discrete (count - k) 0) [
          | yes all ↦
              let whole : k ≡ count = omega (arith, g.2) in
              record {
                state = g.1;
                ends =
                    rw (g.5, size, ==-ne k 0 some_given, is_zero (count - k) all)
                      (ap (λ i. some (some (got ++ take i xs), g.1)) whole);
                rest = g.6 ∙ ap (λ i. drop i xs) whole;
              }
          | no more ↦
              let round : re_read_loop (some src.calls) (suc fuel) s count got
                  ≡ re_read_loop (some src.calls) fuel g.1 (count - k) (got ++ take k xs) =
                rw (g.5, size, ==-ne k 0 some_given, ==-ne (count - k) 0 more) in
              let t =
                re_read_loop-Got fuel g.1 (count - k) (got ++ take k xs) (omega (arith, g.2)) in
              record {
                state = t.state;
                ends =
                    round
                    ∙ (t.ends
                        ∙ ap (λ l. some (some l, t.state))
                            (append_assoc got (take k xs) (take (count - k) (src.pending g.1))
                              ∙ ap (λ l. got ++ l)
                                  (ap (λ p. take k xs ++ take (count - k) p) g.6
                                    ∙ take_split k (count - k) count xs (omega (arith, g.2)))));
                rest =
                    t.rest
                    ∙ ap (drop (count - k)) g.6
                    ∙ drop-drop xs k (count - k) count (omega (arith, g.2));
              }
        ]
      ]

-- `roar_vio_re_read` makes of such a backend one that gives all that it is asked for while that
-- lasts: the first `count` bytes, or all if there are fewer, and what follows them is left. Fuel
-- beyond `count` is enough.
pub re_read-take :
    {S : Type 0} (src : Source S) (fuel : ℕ) (s : S) (count : ℕ)
    → count < fuel
    → (s' : S) × (re_read fuel (some src.calls) s count
        ≡ some (some (take count (src.pending s)), s'))
      × (src.pending s' ≡ drop count (src.pending s))
unfolding re_read
re_read-take src fuel s count enough =
    let t = re_read_loop-Got src fuel s count [] enough in (t.state, t.ends, t.rest)
