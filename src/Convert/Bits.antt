-- ===== src/Convert/Bits.antt =====
-- libroardsp/convert.c: roar_conv_bits, roar_conv_signedness and the functions that they call.
pub mod Back
use roaraudio.Prelude.{
  ℕ, zero, suc, ◌+◌, ◌-◌, ◌*◌, ◌/◌, ◌%◌, Bool, true, false, List, [], ◌∷◌, ◌==◌, leb, if◌then◌else◌,
  get_or,
}
use roaraudio.Status.{Status, ok, failed}
use roaraudio.Meta.{Run, done, fault, and_then, ◌>>=◌, pure}
use roaraudio.Convert.{Block, load, store, number, bytes_of, down, up, move}

-- `x << k` and `x >> k` for a factor of 2 ^ k, stored in `width` bytes. Of a negative number `>> k`
-- keeps the sign, but in bits that are not stored.
abbrev pub shift_left : (factor width : ℕ) → List ℕ → List ℕ
shift_left factor width bytes = bytes_of width (number bytes * factor)

abbrev pub shift_right : (factor width : ℕ) → List ℕ → List ℕ
shift_right factor width bytes = bytes_of width (number bytes / factor)

unfoldable pub bits_8to16 : (out in_ samples : ℕ) → Block → Run Block
unfolding down
bits_8to16 out in_ samples =
    down (λ i. move (shift_left 256 2) (in_ + i * 1) 1 (out + i * 2)) samples

unfoldable pub bits_8to32 : (out in_ samples : ℕ) → Block → Run Block
unfolding down
bits_8to32 out in_ samples =
    down (λ i. move (shift_left 16777216 4) (in_ + i * 1) 1 (out + i * 4)) samples

unfoldable pub bits_16to8 : (out in_ samples : ℕ) → Block → Run Block
unfolding up
bits_16to8 out in_ samples =
    up (λ i. move (shift_right 256 1) (in_ + i * 2) 2 (out + i * 1)) 0 samples

unfoldable pub bits_16to32 : (out in_ samples : ℕ) → Block → Run Block
unfolding down
bits_16to32 out in_ samples =
    down (λ i. move (shift_left 65536 4) (in_ + i * 2) 2 (out + i * 4)) samples

unfoldable pub bits_32to8 : (out in_ samples : ℕ) → Block → Run Block
unfolding up
bits_32to8 out in_ samples =
    up (λ i. move (shift_right 16777216 1) (in_ + i * 4) 4 (out + i * 1)) 0 samples

unfoldable pub bits_32to16 : (out in_ samples : ℕ) → Block → Run Block
unfolding up
bits_32to16 out in_ samples =
    up (λ i. move (shift_right 65536 2) (in_ + i * 4) 4 (out + i * 2)) 0 samples

-- What roar_conv_bits_24to32 makes of the three bytes that end at `ip`: `c[2]`, `c[3]` and `c[1]` are
-- read there, one in front of it and two in front of it.
abbrev pub order24 : List ℕ → List ℕ
order24 bytes = 0 ∷ get_or bytes 0 0 ∷ get_or bytes 2 0 ∷ get_or bytes 1 0 ∷ []

-- The loop of roar_conv_bits_24to32: `ip` starts at the first byte of the last sample, and a read in
-- front of the block is a fault.
abbrev pub move24 : (out in_ i : ℕ) → Block → Run Block
move24 out in_ i mem =
    if leb 2 (in_ + 3 * i) then move order24 (in_ + 3 * i - 2) 3 (out + i * 4) mem else fault

unfoldable pub bits_24to32 : (out in_ samples : ℕ) → Block → Run Block
unfolding down
bits_24to32 out in_ samples = down (move24 out in_) samples

-- `memcpy(out, in, size)`
abbrev pub memcpy : (out in_ size : ℕ) → Block → Run Block
memcpy out in_ size = move (λ bytes. bytes) in_ size out

-- A function that returns 0.
abbrev pub returns : Run Block → Run (Status × Block)
returns r = do mem ← r; pure (ok, mem)

-- `roar_conv_bits`
unfoldable pub conv_bits : (out in_ samples from to : ℕ) → Block → Run (Status × Block)
conv_bits out in_ samples from to mem =
    let format = from / 8 * 16 + to / 8 in
    if from == to
    then (if in_ == out then done (ok, mem) else returns (memcpy out in_ (samples * from / 8) mem))
    else if format == 0x12
    then returns (bits_8to16 out in_ samples mem)
    else if format == 0x14
    then returns (bits_8to32 out in_ samples mem)
    else if format == 0x21
    then returns (bits_16to8 out in_ samples mem)
    else if format == 0x24
    then returns (bits_16to32 out in_ samples mem)
    else if format == 0x34
    then returns (bits_24to32 out in_ samples mem)
    else if format == 0x41
    then returns (bits_32to8 out in_ samples mem)
    else if format == 0x42
    then returns (bits_32to16 out in_ samples mem)
    else done (failed, mem)

-- `op[i] = ip[i] + half` of a type with `2 * half` values, in `size` bytes, and `ip[i] - half`
abbrev pub raise : (half size : ℕ) → List ℕ → List ℕ
raise half size bytes = bytes_of size (number bytes + half)

abbrev pub lower : (half size : ℕ) → List ℕ → List ℕ
lower half size bytes = bytes_of size (number bytes + 2 * half - half)

-- `roar_conv_codec_s2u8`, `_s2u16` and `_s2u32`
unfoldable pub codec_s2u : (half size out in_ samples : ℕ) → Block → Run Block
unfolding up
codec_s2u half size out in_ samples =
    up (λ i. move (raise half size) (in_ + i * size) size (out + i * size)) 0 samples

-- `roar_conv_codec_u2s8`, `_u2s16` and `_u2s32`
unfoldable pub codec_u2s : (half size out in_ samples : ℕ) → Block → Run Block
unfolding up
codec_u2s half size out in_ samples =
    up (λ i. move (lower half size) (in_ + i * size) size (out + i * size)) 0 samples

-- `roar_conv_signedness`: `from` and `to` are 0 or 1.
unfoldable pub conv_signedness :
    (out in_ samples : ℕ) (from to : Bool) (bits : ℕ) → Block → Run (Status × Block)
conv_signedness out in_ samples true false bits mem =
    if bits == 8
    then returns (codec_s2u 128 1 out in_ samples mem)
    else if bits == 16
    then returns (codec_s2u 32768 2 out in_ samples mem)
    else if bits == 32
    then returns (codec_s2u 2147483648 4 out in_ samples mem)
    else done (failed, mem)
conv_signedness out in_ samples false true bits mem =
    if bits == 8
    then returns (codec_u2s 128 1 out in_ samples mem)
    else if bits == 16
    then returns (codec_u2s 32768 2 out in_ samples mem)
    else if bits == 32
    then returns (codec_u2s 2147483648 4 out in_ samples mem)
    else done (failed, mem)
conv_signedness out in_ samples true true bits mem =
    if out == in_ then done (ok, mem) else returns (memcpy out in_ (samples * bits / 8) mem)
conv_signedness out in_ samples false false bits mem =
    if out == in_ then done (ok, mem) else returns (memcpy out in_ (samples * bits / 8) mem)
