-- ===== src/Proto.antt =====
-- libroar/proto.c: the messages between client and server. A byte is a number below 256, an `int`
-- or `unsigned int` is its 32-bit pattern. `datalen` is an `int` that is taken to be no less than 0.
-- What stands in `*mes` and `*data` after a failure is not modelled: no caller reads it.
pub mod Header
pub mod Frame
pub mod RoundTrip
pub mod Failure
pub mod Tests
use Prim.Native.Nat.{bit_and}
use roaraudio.Prelude.{
  ℕ, zero, suc, ◌+◌, ◌-◌, ◌*◌, ◌/◌, ◌%◌, ◌^◌, ◌≡◌, Bool, true, false, Option, none, some, List, [],
  ◌∷◌, ◌++◌, ◌==◌, ltb, leb, not, if◌then◌else◌, get_or, length, take, replicate,
}
use roaraudio.Vio.{VioCalls, vio_read, vio_write}

-- LIBROAR_BUFFER_MSGDATA, _ROAR_MESS_BUF_LEN_V0 and ROAR_MF_LSPOS
abbrev pub msgdata_size : ℕ
msgdata_size = 80

abbrev pub header_size : ℕ
header_size = 10

abbrev pub flag_lspos : ℕ
flag_lspos = 16

-- The `roar_errno` values that this file sets.
pub data Errno : Type 0 where
  notsup pipe proto msgsize nomem unknown : Errno

-- `struct roar_message`. Of `data` the bytes that were stored are listed, from the first on.
pub record Message : Type 0 where
  pub cmd : ℕ
  pub stream : ℕ
  pub pos : ℕ
  pub datalen : ℕ
  pub msg_data : List ℕ
  pub seq : ℕ
  pub flags : ℕ
  pub version : ℕ
  pub pos64 : ℕ

-- `memset(mes, 0, sizeof(struct roar_message))`
abbrev pub zeroed : Message
zeroed = record {
  cmd = 0;
  stream = 0;
  pos = 0;
  datalen = 0;
  msg_data = [];
  seq = 0;
  flags = 0;
  version = 0;
  pos64 = 0;
}

-- A number in network byte order, as ROAR_HOST2NET16 and ROAR_HOST2NET32 leave it in memory.
abbrev pub net16 : ℕ → List ℕ
net16 n = (n / 256) % 256 ∷ n % 256 ∷ []

abbrev pub net32 : ℕ → List ℕ
net32 n = (n / 2 ^ 24) % 256 ∷ (n / 2 ^ 16) % 256 ∷ (n / 256) % 256 ∷ n % 256 ∷ []

-- ROAR_NET2HOST16 and ROAR_NET2HOST32 of the bytes from `buf + i` on
abbrev pub host16 : List ℕ → ℕ → ℕ
host16 buf i = get_or buf i 0 * 256 + get_or buf (i + 1) 0

abbrev pub host32 : List ℕ → ℕ → ℕ
host32 buf i =
    get_or buf i 0 * 2 ^ 24
    + get_or buf (i + 1) 0 * 2 ^ 16
    + get_or buf (i + 2) 0 * 256
    + get_or buf (i + 3) 0

abbrev pub has_lspos : ℕ → Bool
has_lspos flags = not (bit_and flags flag_lspos == 0)

-- The header that roar_vsend_message builds, `none` where it sets ROAR_ERROR_NOTSUP. Version 2
-- stores the result of ROAR_HOST2NET16 in a field of 4 or 8 bytes, on a little-endian host in the
-- first two of them.
unfoldable pub encode_header : ℕ → Message → Option (List ℕ)
encode_header version mes =
    if version == 0
    then some (version ∷ mes.cmd % 256 ∷ (net16 mes.stream ++ net32 mes.pos ++ net16 mes.datalen))
    else if version == 2
    then some (
        version
        ∷ mes.cmd % 256
        ∷ (net16 mes.stream
            ++ net32 mes.flags
            ++ (if has_lspos mes.flags
                then net16 mes.pos64 ++ replicate 6 0
                else net16 mes.pos ++ replicate 2 0)
            ++ net16 mes.datalen
            ++ net16 mes.seq))
    else none

-- `mes->version = buf[0]`: the `char` is signed.
abbrev pub version_of : ℕ → ℕ
version_of b = if ltb b 128 then b else b + (2 ^ 32 - 256)

-- The first switch of roar_vrecv_message: the message so far and the length of its header.
unfoldable pub decode_start : List ℕ → Option (Message × ℕ)
decode_start buf =
    let version = version_of (get_or buf 0 0) in
    let mes : Message = record zeroed {
      version = version;
      cmd = get_or buf 1 0;
      stream = host16 buf 2;
    } in
    if version == 0
    then some (record mes { pos = host32 buf 4; datalen = host16 buf 8 }, header_size)
    else if version == 2
    then some (record mes { flags = host32 buf 4 }, (if has_lspos (host32 buf 4) then 20 else 16))
    else none

-- The second switch, over the whole header.
unfoldable pub decode_rest : List ℕ → Message → Message
decode_rest buf mes =
    if mes.version == 2
    then (if has_lspos mes.flags
        then record mes { pos64 = host32 buf 8; datalen = host16 buf 16; seq = host16 buf 17 }
        else record mes { pos = host32 buf 8; datalen = host16 buf 12; seq = host16 buf 13 })
    else mes

-- `if ( (int16_t)mes->stream == -1 ) mes->stream = -1;`
unfoldable pub extend_stream : Message → Message
extend_stream mes =
    if mes.stream % 2 ^ 16 == 2 ^ 16 - 1 then record mes { stream = 2 ^ 32 - 1 } else mes

-- A result with the state of the backend: `bad e` is a return of -1 with `roar_errno` set to `e`.
pub data Outcome (A : Type 0) : Type 0 where
  good : A → Outcome A
  bad : Errno → Outcome A

abbrev pub Io : Type 0 → Type 0 → Type 0
Io S A = S → Outcome A × S

abbrev pub and_then : {S A B : Type 0} → Outcome A × S → (A → Io S B) → Outcome B × S
and_then (good a, s) f = f a s
and_then (bad e, s) f = (bad e, s)

infixl 5 ◌>>=◌ ◌>>◌
abbrev pub ◌>>=◌ : {S A B : Type 0} → Io S A → (A → Io S B) → Io S B
◌>>=◌ m f s = and_then (m s) f

abbrev pub ◌>>◌ : {S B : Type 0} → Io S (Unit {0}) → Io S B → Io S B
m >> k = m >>= λ _. k

abbrev pub pure : {S A : Type 0} → A → Io S A
pure a s = (good a, s)

abbrev pub fail : {S A : Type 0} → Errno → Io S A
fail e s = (bad e, s)

-- What a receive gives: `*mes`, and `*data` where that is set.
pub record Received : Type 0 where
  pub mes : Message
  pub heap : Option (List ℕ)

-- `if ( roar_vio_write(vio, buf, n) != n ) { roar_errno = ROAR_ERROR_PIPE; return -1; }`
abbrev pub check_write : {S : Type 0} → ℕ → Option ℕ × S → Outcome (Unit {0}) × S
check_write n (none, s) = (bad pipe, s)
check_write n (some k, s) = (if k == n then good tt else bad pipe, s)

-- `if ( roar_vio_read(vio, buf, n) != n ) { roar_errno = e; return -1; }`
abbrev pub check_read : {S : Type 0} → ℕ → Errno → Option (List ℕ) × S → Outcome (List ℕ) × S
check_read n e (none, s) = (bad e, s)
check_read n e (some buf, s) = (if length buf == n then good buf else bad e, s)

module _ {S : Type 0} (vio : Option (VioCalls S)) where
  unfoldable pub write_all : List ℕ → Io S (Unit {0})
  write_all buf s = check_write (length buf) (vio_write vio s buf)

  unfoldable pub read_all : ℕ → Errno → Io S (List ℕ)
  read_all n e s = check_read n e (vio_read vio s n)

  -- The part of roar_vsend_message that follows `mes->version = _ROAR_MESSAGE_VERSION`; `payload`
  -- is NULL where the caller gives no `data`. The result is `*mes`.
  unfoldable pub send_version : ℕ → Message → Option (List ℕ) → Io S Message
  send_version version mes payload = elim (encode_header version mes) [
    | none ↦ fail notsup
    | some header ↦ do
      write_all header
      (if mes.datalen == 0
          then pure tt
          else write_all (take mes.datalen (elim payload [ none ↦ mes.msg_data | some p ↦ p ])))
      pure (record mes { version = version })
  ]

  -- `roar_vsend_message`: _ROAR_MESSAGE_VERSION is 0.
  unfoldable pub vsend_message : Message → Option (List ℕ) → Io S Message
  unfolding send_version
  vsend_message mes payload = send_version 0 mes payload

  -- The end of roar_vrecv_message. `wanted` says that `data` is not NULL, `memory` that `malloc`
  -- gives the bytes asked for.
  unfoldable pub recv_data : (wanted memory : Bool) → Message → Io S Received
  recv_data wanted memory mes =
      if mes.datalen == 0
      then pure (record { mes = mes; heap = none })
      else if leb mes.datalen msgdata_size
      then (do
        buf ← read_all mes.datalen pipe
        pure (record { mes = record mes { msg_data = buf }; heap = none }))
      else if not wanted
      then fail msgsize
      else if not memory
      then fail nomem
      else (do buf ← read_all mes.datalen pipe; pure (record { mes = mes; heap = some buf }))

  -- The read of the bytes that a header has beyond the first `header_size`.
  unfoldable pub recv_more : List ℕ → ℕ → Io S (List ℕ)
  recv_more buf headerlen =
      if ltb header_size headerlen
      then (do more ← read_all (headerlen - header_size) proto; pure (buf ++ more))
      else pure buf

  -- What follows the first switch of roar_vrecv_message.
  unfoldable pub recv_rest : (wanted memory : Bool) → List ℕ → Option (Message × ℕ) → Io S Received
  unfolding recv_more
  recv_rest wanted memory buf none = fail proto
  recv_rest wanted memory buf (some (mes, headerlen)) = do
    whole ← recv_more buf headerlen
    recv_data wanted memory (extend_stream (decode_rest whole mes))

  -- `roar_vrecv_message`; `given` says that `mes` is not NULL.
  unfoldable pub vrecv_message : (given wanted memory : Bool) → Io S Received
  unfolding read_all recv_rest recv_data
  vrecv_message given wanted memory =
      if not given
      then fail unknown
      else (do buf ← read_all header_size proto; recv_rest wanted memory buf (decode_start buf))
