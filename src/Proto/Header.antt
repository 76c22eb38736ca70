-- ===== src/Proto/Header.antt =====
-- The header switches of roar_vsend_message and roar_vrecv_message (libroar/proto.c) against each
-- other.
use roaraudio.Prelude.{
  ℕ, ◌+◌, ◌*◌, ◌/◌, ◌%◌, ◌^◌, ◌<◌, ◌≡◌, false, some, List, ◌∷◌, ◌++◌, arith, length, replicate,
}
use roaraudio.Proto.{
  Message, zeroed, header_size, net16, net32, host32, has_lspos, encode_header, decode_start,
  decode_rest,
}

-- The ten bytes of a header of version 0.
abbrev pub header0 : Message → List ℕ
header0 mes = 0 ∷ mes.cmd % 256 ∷ (net16 mes.stream ++ net32 mes.pos ++ net16 mes.datalen)

-- What a header of version 0 can carry of a message.
abbrev pub carried : Message → Message
carried mes = record zeroed {
  cmd = mes.cmd % 256;
  stream = mes.stream % 2 ^ 16;
  pos = mes.pos % 2 ^ 32;
  datalen = mes.datalen % 2 ^ 16;
}

digits16 : (n : ℕ) → n / 256 % 256 * 256 + n % 256 ≡ n % 2 ^ 16
digits16 n = omega arith

pub digits32 :
    (n : ℕ)
    → n / 2 ^ 24 % 256 * 2 ^ 24 + n / 2 ^ 16 % 256 * 2 ^ 16 + n / 256 % 256 * 256 + n % 256
      ≡ n % 2 ^ 32
digits32 n = omega arith

pub decode_start-header0 :
    (mes : Message) → decode_start (header0 mes) ≡ some (carried mes, header_size)
unfolding decode_start
decode_start-header0 mes =
    ground (arith, digits16 mes.stream, digits32 mes.pos, digits16 mes.datalen)

-- The sixteen bytes of a header of version 2 without ROAR_MF_LSPOS.
abbrev pub header2 : Message → List ℕ
header2 mes =
    2
    ∷ mes.cmd % 256
    ∷ (net16 mes.stream
        ++ net32 mes.flags
        ++ (net16 mes.pos ++ replicate 2 0)
        ++ net16 mes.datalen
        ++ net16 mes.seq)

-- What roar_vrecv_message finds in them.
abbrev pub misread : Message → Message
misread mes = record zeroed {
  version = 2;
  cmd = mes.cmd % 256;
  stream = mes.stream % 2 ^ 16;
  flags = mes.flags;
  pos = mes.pos % 2 ^ 16 * 2 ^ 16;
  datalen = mes.datalen % 2 ^ 16;
  seq = mes.datalen % 256 * 256 + mes.seq / 256 % 256;
}

decode_start-header2 :
    (mes : Message)
    → mes.flags < 2 ^ 32
    → has_lspos mes.flags ≡ false
    → decode_start (header2 mes)
      ≡ some (
        record zeroed {
          version = 2;
          cmd = mes.cmd % 256;
          stream = mes.stream % 2 ^ 16;
          flags = mes.flags;
        },
        16,
      )
unfolding decode_start
decode_start-header2 mes fits short =
    let whole : host32 (header2 mes) 4 ≡ mes.flags = omega (arith, digits32 mes.flags) in
    rw (whole, short, digits16 mes.stream)

-- A message without ROAR_MF_LSPOS that is sent with version 2 is not read back as it was: the
-- reader starts the sequence number one byte too early, in the data length, and the low 16 bits of
-- `pos`, which is all that was sent of it, land in its upper half.
decode-encode_version_two :
    (mes : Message)
    → mes.flags < 2 ^ 32
    → has_lspos mes.flags ≡ false
    → (header : List ℕ) × (start : Message) × (encode_header 2 mes ≡ some header)
      × (decode_start header ≡ some (start, length header))
      × (decode_rest header start ≡ misread mes)
unfolding encode_header decode_rest
decode-encode_version_two mes fits short = (
  header2 mes,
  _,
  rw short,
  decode_start-header2 mes fits short,
  rw short (ground (arith, digits16 mes.datalen)),
)
