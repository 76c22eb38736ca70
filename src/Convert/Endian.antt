-- ===== src/Convert/Endian.antt =====
-- libroardsp/convert.c: roar_conv_endian and the functions that it calls.
pub mod Back
use roaraudio.Prelude.{
  ℕ, ◌+◌, ◌*◌, ◌/◌, Bool, true, false, List, [], ◌∷◌, ◌==◌, ◌||◌, ◌&&◌, if◌then◌else◌, get_or,
}
use roaraudio.Status.{Status, ok, failed}
use roaraudio.Meta.{Run, done, fault, and_then, ◌>>=◌, pure}
use roaraudio.Convert.{Block, load, store, up, move}

-- ROAR_CODEC_LE, ROAR_CODEC_BE, ROAR_CODEC_PDP and ROAR_CODEC_NATIVE_ENDIAN
abbrev pub order_le : ℕ
order_le = 1

abbrev pub order_be : ℕ
order_be = 2

abbrev pub order_pdp : ℕ
order_pdp = 3

abbrev pub order_native : ℕ
order_native = order_le

-- the bytes of a sample from its last one to its first
abbrev pub swap2 : List ℕ → List ℕ
swap2 c = get_or c 1 0 ∷ get_or c 0 0 ∷ []

abbrev pub swap3 : List ℕ → List ℕ
swap3 c = get_or c 2 0 ∷ get_or c 1 0 ∷ get_or c 0 0 ∷ []

abbrev pub swap4 : List ℕ → List ℕ
swap4 c = get_or c 3 0 ∷ get_or c 2 0 ∷ get_or c 1 0 ∷ get_or c 0 0 ∷ []

-- `op[to] = ip[from]`
abbrev pub move_byte : (from to : ℕ) → Block → Run Block
move_byte from to = move (λ c. c) from 1 to

-- `roar_conv_endian_16`: in place both bytes are read before one is stored.
unfoldable pub endian_16 : (out in_ samples : ℕ) → Block → Run Block
unfolding up
endian_16 out in_ samples =
    if out == in_
    then up (λ i. move swap2 (in_ + i * 2) 2 (out + i * 2)) 0 samples
    else up
        (λ i mem. do
          mem1 ← move_byte (in_ + i * 2 + 1) (out + i * 2) mem
          move_byte (in_ + i * 2) (out + i * 2 + 1) mem1)
        0 samples

-- `roar_conv_endian_24`: in place the byte in the middle stays, and elsewhere it is not stored.
unfoldable pub endian_24 : (out in_ samples : ℕ) → Block → Run Block
unfolding up
endian_24 out in_ samples =
    if out == in_
    then up (λ i. move swap3 (in_ + i * 3) 3 (out + i * 3)) 0 samples
    else up
        (λ i mem. do
          mem1 ← move_byte (in_ + i * 3 + 2) (out + i * 3) mem
          move_byte (in_ + i * 3) (out + i * 3 + 2) mem1)
        0 samples

-- `roar_conv_endian_32`
unfoldable pub endian_32 : (out in_ samples : ℕ) → Block → Run Block
unfolding up
endian_32 out in_ samples = up (λ i. move swap4 (in_ + i * 4) 4 (out + i * 4)) 0 samples

abbrev pub returns : Run Block → Run (Status × Block)
returns r = do mem ← r; pure (ok, mem)

-- The first lines of roar_conv_endian.
abbrev pub order_of : (bits order : ℕ) → ℕ
order_of bits order =
    if bits == 8
    then order_native
    else if bits == 16
    then (if order == order_pdp then order_le else order)
    else order

abbrev pub is_plain : ℕ → Bool
is_plain order = (order == order_le) || (order == order_be)

-- The 32 bits with PDP on one of the sides.
abbrev pub endian_pdp : (out in_ samples from to : ℕ) → Block → Run Block
endian_pdp out in_ samples from to mem = do
  mem1 ← (if from == order_be then endian_32 out in_ samples mem else done mem)
  mem2 ← endian_16 out in_ (samples * 2) mem1
  (if to == order_be then endian_32 out in_ samples mem2 else done mem2)

abbrev pub endian_to : (out in_ samples from to bits : ℕ) → Block → Run (Status × Block)
endian_to out in_ samples from to bits mem =
    if from == to
    then (if in_ == out
        then done (ok, mem)
        else returns (move (λ c. c) in_ (samples * bits / 8) out mem))
    else if bits == 16
    then returns (endian_16 out in_ samples mem)
    else if bits == 24
    then (if is_plain from && is_plain to
        then returns (endian_24 out in_ samples mem)
        else done (failed, mem))
    else if bits == 32
    then returns (
        if is_plain from && is_plain to
        then endian_32 out in_ samples mem
        else endian_pdp out in_ samples from to mem)
    else done (failed, mem)

-- `roar_conv_endian`
unfoldable pub conv_endian : (out in_ samples from to bits : ℕ) → Block → Run (Status × Block)
conv_endian out in_ samples from to bits =
    endian_to out in_ samples (order_of bits from) (order_of bits to) bits
