-- ===== src/Convert.antt =====
-- libroardsp/convert.c: samples of other sizes, signs, byte orders and numbers of channels, on a
-- little-endian host. `in` and `out` are places in one block of bytes, which may coincide, since
-- roar_conv converts in place from its second step on; an access outside the block is a fault. A
-- signed number is its bit pattern.
pub mod Loops
pub mod Undo
pub mod Bits
pub mod Endian
pub mod Chans
pub mod Chain
mod Tests
use roaraudio.Prelude.{
  ℕ, zero, suc, ◌+◌, ◌-◌, ◌*◌, ◌/◌, ◌%◌, ◌^◌, Bool, true, false, List, [], ◌∷◌, ◌++◌, ◌==◌, ltb,
  leb, not, ◌||◌, ◌&&◌, if◌then◌else◌, length, get_or,
}
use roaraudio.Status.{Status, ok, failed}
use roaraudio.Memory.{slice, copy}
use roaraudio.Meta.{Run, done, fault, and_then, ◌>>=◌, pure}

-- a block of memory
abbrev pub Block : Type 0
Block = List ℕ

abbrev pub load : Block → (place size : ℕ) → Run (List ℕ)
load mem place size = if leb (place + size) (length mem) then done (slice mem place size) else fault

abbrev pub store : Block → (place : ℕ) → List ℕ → Run Block
store mem place bytes =
    if leb (place + length bytes) (length mem) then done (copy mem place bytes) else fault

-- The number at a pointer, and the bytes of a number.
abbrev pub number : List ℕ → ℕ
number [] = 0
number (b ∷ bs) = b + 256 * number bs

abbrev pub bytes_of : (size n : ℕ) → List ℕ
bytes_of zero n = []
bytes_of (suc size) n = n % 256 ∷ bytes_of size (n / 256)

-- `for (i = n - 1; i >= 0; i--)`
pub down : (ℕ → Block → Run Block) → (n : ℕ) → Block → Run Block
down step zero mem = done mem
down step (suc n) mem = step n mem >>= down step n

-- `for (i = 0; i < n; i++)`, from some `i` on with `n` rounds left
pub up : (ℕ → Block → Run Block) → (i n : ℕ) → Block → Run Block
up step i zero mem = done mem
up step i (suc n) mem = step i mem >>= up step (i + 1) n

-- One sample: the `size` bytes at `from` are read, and what `f` makes of them is stored at `to`.
abbrev pub move : (f : List ℕ → List ℕ) → (from size to : ℕ) → Block → Run Block
move f from size to mem = do bytes ← load mem from size; store mem to (f bytes)
