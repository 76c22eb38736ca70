-- ===== src/Convert/Bits/Back.antt =====
-- roar_conv_bits and roar_conv_signedness of libroardsp/convert.c, there and back.
use roaraudio.Prelude.{
  ℕ, ◌+◌, ap, ◌*◌, ◌≤◌, ◌≡◌, refl, Bool, true, false, not, ◌⊎◌, List, [], ◌∷◌, arith, length,
}
use roaraudio.Status.{ok}
use roaraudio.Meta.{done}
use roaraudio.Convert.{Block}
use roaraudio.Convert.Undo.{IsBytes, IsBytes-slice, MayWiden, IsRestored, widen_back, level_back}
use roaraudio.Convert.Bits.{
  shift_left, shift_right, bits_8to16, bits_8to32, bits_16to8, bits_16to32, bits_32to8, bits_32to16,
  conv_bits, returns, raise, lower, codec_s2u, codec_u2s, conv_signedness,
}

-- the pairs of sizes of which roar_conv_bits knows both directions
pub data Widening : Type 0 where
  w8to16 : Widening
  w8to32 : Widening
  w16to32 : Widening

abbrev pub shorter : Widening → ℕ
shorter w8to16 = 1
shorter w8to32 = 1
shorter w16to32 = 2

abbrev pub longer : Widening → ℕ
longer w8to16 = 2
longer w8to32 = 4
longer w16to32 = 4

abbrev factor : Widening → ℕ
factor w8to16 = 256
factor w8to32 = 16777216
factor w16to32 = 65536

undo :
    (w : Widening) (bytes : List ℕ)
    → length bytes ≡ shorter w
    → IsBytes bytes
    → shift_right (factor w) (shorter w) (shift_left (factor w) (longer w) bytes) ≡ bytes
undo w8to16 (a ∷ []) h k = ground arith
undo w8to32 (a ∷ []) h k = ground arith
undo w16to32 (a ∷ b ∷ []) h k = ground arith
undo w bytes h k = absurd (omega arith)

-- For the sizes 8 to 16, 8 to 32 and 16 to 32 bits: `roar_conv_bits` of `n` samples from `in` to
-- `out`, and back in place at `out`, both return 0 without leaving the block, and the samples then
-- stand at `out` as they stood at `in`; only the longer samples' place has changed. `out` may
-- be `in`, or lie behind it so that they overlap, or end in front of it.
pub conv_bits-back :
    (w : Widening) (out in_ n : ℕ) (mem : Block)
    → IsBytes mem
    → in_ + n * shorter w ≤ length mem
    → out + n * longer w ≤ length mem
    → MayWiden out in_ n (longer w)
    → (mem1 : Block) × (mem2 : Block) × (conv_bits out in_ n (8 * shorter w) (8 * longer w) mem
        ≡ done (ok, mem1))
      × (conv_bits out out n (8 * longer w) (8 * shorter w) mem1 ≡ done (ok, mem2))
      × IsRestored out in_ n (shorter w) (longer w) mem mem2
unfolding conv_bits bits_8to16 bits_16to8 bits_8to32 bits_32to8 bits_16to32 bits_32to16
conv_bits-back w8to16 out in_ n mem b h k apart =
    let r =
      widen_back out in_ n 1 2 mem (shift_left 256 2) (shift_right 256 1) IsBytes (λ bytes e. refl)
        (λ bytes e. refl) (undo w8to16) (omega arith) (λ j e. IsBytes-slice mem (in_ + j * 1) 1 b) h
        k apart in
    (r.0, r.1, ap returns r.2, ap returns r.3, r.4)
conv_bits-back w8to32 out in_ n mem b h k apart =
    let r =
      widen_back out in_ n 1 4 mem (shift_left 16777216 4) (shift_right 16777216 1) IsBytes
        (λ bytes e. refl) (λ bytes e. refl) (undo w8to32) (omega arith)
        (λ j e. IsBytes-slice mem (in_ + j * 1) 1 b) h k apart in
    (r.0, r.1, ap returns r.2, ap returns r.3, r.4)
conv_bits-back w16to32 out in_ n mem b h k apart =
    let r =
      widen_back out in_ n 2 4 mem (shift_left 65536 4) (shift_right 65536 2) IsBytes
        (λ bytes e. refl) (λ bytes e. refl) (undo w16to32) (omega arith)
        (λ j e. IsBytes-slice mem (in_ + j * 2) 2 b) h k apart in
    (r.0, r.1, ap returns r.2, ap returns r.3, r.4)

-- the types of which roar_conv_signedness knows both kinds, their sizes and their half
pub data Width : Type 0 where
  one_byte : Width
  two_bytes : Width
  four_bytes : Width

abbrev pub bytes_in : Width → ℕ
bytes_in one_byte = 1
bytes_in two_bytes = 2
bytes_in four_bytes = 4

abbrev half : Width → ℕ
half one_byte = 128
half two_bytes = 32768
half four_bytes = 2147483648

undo_sign :
    (w : Width) (bytes : List ℕ)
    → length bytes ≡ bytes_in w
    → IsBytes bytes
    → (lower (half w) (bytes_in w) (raise (half w) (bytes_in w) bytes) ≡ bytes)
      × (raise (half w) (bytes_in w) (lower (half w) (bytes_in w) bytes) ≡ bytes)
undo_sign one_byte (a ∷ []) h k = (ground arith, ground arith)
undo_sign two_bytes (a ∷ b ∷ []) h k = (ground arith, ground arith)
undo_sign four_bytes (a ∷ b ∷ c ∷ d ∷ []) h k = (ground arith, ground arith)
undo_sign w bytes h k = absurd (omega arith)

-- For samples of 8, 16 or 32 bits: `roar_conv_signedness` of `n` samples from `in` to `out`, from signed to unsigned or the other way
-- round, and back in place at `out`: both return 0 without leaving the block, and the samples then
-- stand at `out` as they stood at `in`. `out` may be `in`, or lie in front of it, or be apart.
pub conv_signedness-back :
    (w : Width) (to : Bool) (out in_ n : ℕ) (mem : Block)
    → IsBytes mem
    → in_ + n * bytes_in w ≤ length mem
    → out + n * bytes_in w ≤ length mem
    → (out ≤ in_) ⊎ (in_ + n * bytes_in w ≤ out)
    → (mem1 : Block) × (mem2 : Block) × (conv_signedness out in_ n (not to) to (8 * bytes_in w) mem
        ≡ done (ok, mem1))
      × (conv_signedness out out n to (not to) (8 * bytes_in w) mem1 ≡ done (ok, mem2))
      × IsRestored out in_ n (bytes_in w) (bytes_in w) mem mem2
unfolding conv_signedness codec_s2u codec_u2s
conv_signedness-back one_byte false out in_ n mem b h k apart =
    let r =
      level_back out in_ n 1 1 mem (raise 128 1) (lower 128 1) IsBytes (λ bytes e. refl)
        (λ bytes e. refl) (λ bytes e v. (undo_sign one_byte bytes e v).0) (omega arith)
        (λ j e. IsBytes-slice mem (in_ + j * 1) 1 b) h k (omega arith) apart in
    (r.0, r.1, ap returns r.2, ap returns r.3, r.4)
conv_signedness-back one_byte true out in_ n mem b h k apart =
    let r =
      level_back out in_ n 1 1 mem (lower 128 1) (raise 128 1) IsBytes (λ bytes e. refl)
        (λ bytes e. refl) (λ bytes e v. (undo_sign one_byte bytes e v).1) (omega arith)
        (λ j e. IsBytes-slice mem (in_ + j * 1) 1 b) h k (omega arith) apart in
    (r.0, r.1, ap returns r.2, ap returns r.3, r.4)
conv_signedness-back two_bytes false out in_ n mem b h k apart =
    let r =
      level_back out in_ n 2 2 mem (raise 32768 2) (lower 32768 2) IsBytes (λ bytes e. refl)
        (λ bytes e. refl) (λ bytes e v. (undo_sign two_bytes bytes e v).0) (omega arith)
        (λ j e. IsBytes-slice mem (in_ + j * 2) 2 b) h k (omega arith) apart in
    (r.0, r.1, ap returns r.2, ap returns r.3, r.4)
conv_signedness-back two_bytes true out in_ n mem b h k apart =
    let r =
      level_back out in_ n 2 2 mem (lower 32768 2) (raise 32768 2) IsBytes (λ bytes e. refl)
        (λ bytes e. refl) (λ bytes e v. (undo_sign two_bytes bytes e v).1) (omega arith)
        (λ j e. IsBytes-slice mem (in_ + j * 2) 2 b) h k (omega arith) apart in
    (r.0, r.1, ap returns r.2, ap returns r.3, r.4)
conv_signedness-back four_bytes false out in_ n mem b h k apart =
    let r =
      level_back out in_ n 4 4 mem (raise 2147483648 4) (lower 2147483648 4) IsBytes
        (λ bytes e. refl) (λ bytes e. refl) (λ bytes e v. (undo_sign four_bytes bytes e v).0)
        (omega arith) (λ j e. IsBytes-slice mem (in_ + j * 4) 4 b) h k (omega arith) apart in
    (r.0, r.1, ap returns r.2, ap returns r.3, r.4)
conv_signedness-back four_bytes true out in_ n mem b h k apart =
    let r =
      level_back out in_ n 4 4 mem (lower 2147483648 4) (raise 2147483648 4) IsBytes
        (λ bytes e. refl) (λ bytes e. refl) (λ bytes e v. (undo_sign four_bytes bytes e v).1)
        (omega arith) (λ j e. IsBytes-slice mem (in_ + j * 4) 4 b) h k (omega arith) apart in
    (r.0, r.1, ap returns r.2, ap returns r.3, r.4)
