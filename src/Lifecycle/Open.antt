-- ===== src/Lifecycle/Open.antt =====
-- How many streams are open: there, and not being closed (roard/streams.c).
use roaraudio.Prelude.{
  ℕ, zero, suc, ◌+◌, ◌≤◌, ◌≡◌, Option, none, some, List, [], ◌∷◌, ◌==◌, if◌then◌else◌, get_elem?,
  set, length, arith,
}
use roaraudio.Client.{Stream}
use roaraudio.Lifecycle.{closing}

abbrev pub open_in : Option Stream → ℕ
open_in none = 0
open_in (some s) = if s.state == closing then 0 else 1

pub count_open : List (Option Stream) → ℕ
count_open [] = 0
count_open (p ∷ ps) = open_in p + count_open ps

pub count_open-set :
    (ps : List (Option Stream)) (i : ℕ) (p q : Option Stream)
    → get_elem? ps i ≡ some p
    → count_open (set ps i q) + open_in p ≡ count_open ps + open_in q
unfolding count_open
count_open-set [] i p q h = absurd (ground arith)
count_open-set (r ∷ ps) zero p q h = let e : r ≡ p = ground arith in rw e (omega arith)
count_open-set (r ∷ ps) (suc i) p q h = omega (arith, count_open-set ps i p q h)

pub open-le-length : (ps : List (Option Stream)) → count_open ps ≤ length ps
unfolding count_open
open-le-length [] = omega arith
open-le-length (none ∷ ps) = omega (arith, open-le-length ps)
open-le-length (some s ∷ ps) = ground (arith, open-le-length ps)
