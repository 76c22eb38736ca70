-- ===== src/Vio/Tests.antt =====
-- roar_vio_re_read of libroar/vio.c over a backend that gives one byte at a time.
use roaraudio.Prelude.{
  ℕ, zero, suc, ◌≤◌, ◌<◌, ◌≡◌, refl, none, some, List, [], ◌∷◌, arith, length, take, drop,
}
use roaraudio.Vio.{VioCalls, vio_read}
use roaraudio.Vio.Retry.{Source, re_read, re_read-take}

-- the number of bytes that the backend gives
abbrev one : ℕ → List ℕ → ℕ
one zero xs = 0
one (suc count) [] = 0
one (suc count) (x ∷ xs) = 1

abbrev drip : VioCalls (List ℕ)
drip = record {
  read = some (λ xs count. (some (take (one count xs) xs), drop (one count xs) xs));
  write = none;
}

one_most :
    (count : ℕ) (xs : List ℕ)
    → (one count xs ≤ count)
      × (one count xs ≤ length xs)
      × (0 < count → 0 < length xs → 0 < one count xs)
one_most zero xs = (omega arith, omega arith, λ h k. h)
one_most (suc count) [] = (omega arith, omega arith, λ h k. k)
one_most (suc count) (x ∷ xs) = (omega arith, omega arith, λ h k. omega arith)

drip_read :
    (xs : List ℕ) (count : ℕ)
    → vio_read (some drip) xs count ≡ (some (take (one count xs) xs), drop (one count xs) xs)
unfolding vio_read
drip_read xs count = refl

abbrev drips : Source (List ℕ)
drips = record {
  calls = drip;
  pending = λ xs. xs;
  gives = λ xs count.
      let m = one_most count xs in
      (one count xs, drop (one count xs) xs, m.0, m.1, m.2, drip_read xs count, refl);
}

re_read-take_example :
    (s' : List ℕ) × (re_read 4 (some drip) (5 ∷ 6 ∷ 7 ∷ 8 ∷ []) 3
      ≡ some (some (5 ∷ 6 ∷ 7 ∷ []), s'))
    × (s' ≡ 8 ∷ [])
re_read-take_example = re_read-take drips 4 (5 ∷ 6 ∷ 7 ∷ 8 ∷ []) 3 (omega arith)
