-- ===== src/Vio.antt =====
-- libroar/vio.c: the calls that a backend of `struct roar_vio_calls` provides, and how
-- roar_vio_read and roar_vio_write reach them. `S` is the state that the backend keeps behind
-- `inst`. An `ssize_t` of -1 is `none`.
pub mod Retry
pub mod BufferStore
mod Tests
use roaraudio.Prelude.{ℕ, ◌≤◌, ◌≡◌, Option, none, some, List, ◌++◌, length, take, drop}

-- `struct roar_vio_calls`: a member that is NULL is `none`. `read` gives the bytes that it stored,
-- whose number it returns; `write` gives the number that it took.
pub record VioCalls (S : Type 0) : Type 0 where
  pub read : Option (S → ℕ → Option (List ℕ) × S)
  pub write : Option (S → List ℕ → Option ℕ × S)

module _ {S : Type 0} where
  -- `roar_vio_read`
  unfoldable pub vio_read : Option (VioCalls S) → S → ℕ → Option (List ℕ) × S
  vio_read none s count = (none, s)
  vio_read (some vio) s count = elim vio.read [ none ↦ (none, s) | some read ↦ read s count ]

  -- `roar_vio_write`
  unfoldable pub vio_write : Option (VioCalls S) → S → List ℕ → Option ℕ × S
  vio_write none s buf = (none, s)
  vio_write (some vio) s buf = elim vio.write [ none ↦ (none, s) | some write ↦ write s buf ]

-- A writer that takes all that it is given: `sent` is what it has taken so far.
pub record Writer (S : Type 0) : Type 0 where
  pub calls : Option (VioCalls S)
  pub sent : S → List ℕ
  pub takes_all :
      (s : S) (buf : List ℕ)
      → (s' : S) × (vio_write calls s buf ≡ (some (length buf), s')) × (sent s' ≡ sent s ++ buf)

-- A reader that gives what it is asked for while that lasts: `pending` is what is still to come.
pub record Reader (S : Type 0) : Type 0 where
  pub calls : Option (VioCalls S)
  pub pending : S → List ℕ
  pub gives_all :
      (s : S) (count : ℕ)
      → count ≤ length (pending s)
      → (s' : S) × (vio_read calls s count ≡ (some (take count (pending s)), s'))
        × (pending s' ≡ drop count (pending s))
