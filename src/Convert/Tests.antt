-- ===== src/Convert/Tests.antt =====
-- The functions of libroardsp/convert.c on a few samples.
use roaraudio.Prelude.{◌≡◌, inl, refl, true, false, none, some, [], ◌∷◌, arith}
use roaraudio.Prelude.Int.{◌+ℤ◌}
use roaraudio.Memory.{slice, copy}
use roaraudio.Status.{ok, failed}
use roaraudio.Meta.{done}
use roaraudio.Convert.{Block}
use roaraudio.Convert.Chain.{RateFunc, conv}
use roaraudio.Convert.Undo.{IsRestored}
use roaraudio.Convert.Bits.{conv_bits, bits_16to8, bits_24to32, codec_s2u, conv_signedness}
use roaraudio.Convert.Bits.Back.{w8to16, two_bytes, conv_bits-back, conv_signedness-back}
use roaraudio.Convert.Endian.{conv_endian, endian_16, endian_24}
use roaraudio.Convert.Endian.Back.{be, pdp, s32, conv_endian-back}
use roaraudio.Convert.Chans.{conv_chans, chans_1to2, chans_2to3, chans_4to2}
use roaraudio.Convert.Chans.Back.{depth16, conv_chans-back}

-- three samples of 8 bits, with room for them at 16 bits
abbrev three : Block
three = 1 ∷ 128 ∷ 255 ∷ 9 ∷ 9 ∷ 9 ∷ 9 ∷ []

conv_bits-back_example :
    (mem1 : Block) × (mem2 : Block) × (conv_bits 0 0 3 8 16 three ≡ done (ok, mem1))
    × (conv_bits 0 0 3 16 8 mem1 ≡ done (ok, mem2))
    × IsRestored 0 0 3 1 2 three mem2
conv_bits-back_example =
    conv_bits-back w8to16 0 0 3 three (omega arith) (omega arith) (omega arith) (inl (omega arith))

conv_signedness-back_example :
    (mem1 : Block) × (mem2 : Block) × (conv_signedness 0 0 3 true false 16 three ≡ done (ok, mem1))
    × (conv_signedness 0 0 3 false true 16 mem1 ≡ done (ok, mem2))
    × IsRestored 0 0 3 2 2 three mem2
conv_signedness-back_example =
    conv_signedness-back two_bytes false 0 0 3 three (omega arith) (omega arith) (omega arith)
      (inl (omega arith))

-- two samples of 32 bits
abbrev two_words : Block
two_words = 1 ∷ 2 ∷ 3 ∷ 4 ∷ 5 ∷ 6 ∷ 7 ∷ 8 ∷ []

conv_endian-back_example :
    (mem1 : Block) × (conv_endian 0 0 2 2 3 32 two_words ≡ done (ok, mem1))
    × (conv_endian 0 0 2 3 2 32 mem1 ≡ done (ok, two_words))
conv_endian-back_example = conv_endian-back s32 be pdp 0 2 two_words tt tt (omega arith)

-- two samples of 16 bits, with room for three channels
abbrev mono : Block
mono = 1 ∷ 0 ∷ 255 ∷ 127 ∷ 9 ∷ 9 ∷ 9 ∷ 9 ∷ 9 ∷ 9 ∷ 9 ∷ 9 ∷ []

conv_chans-back_example :
    (mem1 : Block) × (mem2 : Block) × (conv_chans 0 0 2 1 3 16 mono ≡ done (ok, mem1))
    × (conv_chans 0 0 6 3 1 16 mem1 ≡ done (ok, mem2))
    × IsRestored 0 0 2 2 6 mono mem2
conv_chans-back_example =
    conv_chans-back depth16 0 0 2 3 mono (omega arith) (omega arith) (omega arith) (omega arith)
      (omega arith) (inl (omega arith))

-- Two frames of two channels become three in another place: the third channel is the mean.
chans_2to3-apart :
    chans_2to3 8 0 4
      (2 ∷ 0 ∷ 4 ∷ 0 ∷ 6 ∷ 0 ∷ 8 ∷ 0 ∷ 9 ∷ 9 ∷ 9 ∷ 9 ∷ 9 ∷ 9 ∷ 9 ∷ 9 ∷ 9 ∷ 9 ∷ 9 ∷ 9 ∷ [])
    ≡ done (2 ∷ 0 ∷ 4 ∷ 0 ∷ 6 ∷ 0 ∷ 8 ∷ 0 ∷ 2 ∷ 0 ∷ 4 ∷ 0 ∷ 3 ∷ 0 ∷ 6 ∷ 0 ∷ 8 ∷ 0 ∷ 7 ∷ 0 ∷ [])
unfolding chans_2to3 ◌+ℤ◌ slice copy
chans_2to3-apart = refl

-- In place the second channel of the second frame is lost: 8 is overwritten by 6 before it is read.
chans_2to3-in_place :
    chans_2to3 0 0 4 (2 ∷ 0 ∷ 4 ∷ 0 ∷ 6 ∷ 0 ∷ 8 ∷ 0 ∷ 9 ∷ 9 ∷ 9 ∷ 9 ∷ [])
    ≡ done (2 ∷ 0 ∷ 4 ∷ 0 ∷ 3 ∷ 0 ∷ 6 ∷ 0 ∷ 6 ∷ 0 ∷ 6 ∷ 0 ∷ [])
unfolding chans_2to3 ◌+ℤ◌ slice copy
chans_2to3-in_place = refl

-- Of one frame of four channels nothing is converted.
chans_4to2-one :
    chans_4to2 0 0 4 (2 ∷ 0 ∷ 4 ∷ 0 ∷ 6 ∷ 0 ∷ 8 ∷ 0 ∷ [])
    ≡ done (2 ∷ 0 ∷ 4 ∷ 0 ∷ 6 ∷ 0 ∷ 8 ∷ 0 ∷ [])
unfolding chans_4to2 slice copy
chans_4to2-one = refl

-- In another place the byte in the middle of a sample of 24 bits is not stored.
endian_24-apart : endian_24 3 0 1 (1 ∷ 2 ∷ 3 ∷ 9 ∷ 9 ∷ 9 ∷ []) ≡ done (1 ∷ 2 ∷ 3 ∷ 3 ∷ 9 ∷ 1 ∷ [])
unfolding endian_24 slice copy
endian_24-apart = refl

-- A sample of 24 bits behind other bytes takes two of them.
bits_24to32-behind :
    bits_24to32 5 2 1 (7 ∷ 8 ∷ 1 ∷ 2 ∷ 3 ∷ 9 ∷ 9 ∷ 9 ∷ 9 ∷ [])
    ≡ done (7 ∷ 8 ∷ 1 ∷ 2 ∷ 3 ∷ 0 ∷ 7 ∷ 1 ∷ 8 ∷ [])
unfolding bits_24to32 slice copy
bits_24to32-behind = refl

abbrev no_rate : RateFunc
no_rate out in_ samples from to bits channels mem = done (failed, mem)

-- One sample of 16 bits in big endian becomes two of 8 bits that are not signed.
conv-stereo :
    conv no_rate none 0 2 1
      (record { rate = 8000; bits = 16; channels = 1; codec = 2 })
      (record { rate = 8000; bits = 8; channels = 2; codec = 5 })
      (9 ∷ 9 ∷ 3 ∷ 4 ∷ [])
    ≡ done (ok, 131 ∷ 131 ∷ 3 ∷ 4 ∷ [])
unfolding conv conv_bits conv_chans conv_endian conv_signedness endian_16 bits_16to8 codec_s2u
    chans_1to2 slice copy
conv-stereo = refl

-- Two channels in big endian out of one: the number of samples is still that of the one channel, so
-- only the first half of the output gets its byte order.
conv-half :
    conv no_rate none 0 4 1
      (record { rate = 8000; bits = 16; channels = 1; codec = 1 })
      (record { rate = 8000; bits = 16; channels = 2; codec = 2 })
      (9 ∷ 9 ∷ 9 ∷ 9 ∷ 3 ∷ 4 ∷ [])
    ≡ done (ok, 4 ∷ 3 ∷ 3 ∷ 4 ∷ 3 ∷ 4 ∷ [])
unfolding conv conv_chans conv_endian endian_16 chans_1to2 slice copy
conv-half = refl

-- Less output than input goes through the memory that is allocated, here behind the input.
conv-temp :
    conv no_rate
      (some 3)
      0
      1
      1
      (record { rate = 8000; bits = 16; channels = 1; codec = 1 })
      (record { rate = 8000; bits = 8; channels = 1; codec = 1 })
      (9 ∷ 3 ∷ 4 ∷ 0 ∷ 0 ∷ [])
    ≡ done (ok, 4 ∷ 3 ∷ 4 ∷ 4 ∷ 0 ∷ [])
unfolding conv conv_bits bits_16to8 slice copy
conv-temp = refl
