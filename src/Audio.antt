-- ===== src/Audio.antt =====
-- libroar/stream.c: the description of a stream, as it goes into a message and comes out of it, the
-- sizes that follow from a format, and the named formats. An `int` or `unsigned int` is its 32-bit
-- pattern; no pointer is NULL.
pub mod Names
pub mod RoundTrip
pub mod Lookup
pub mod Formats
mod Tests
use roaraudio.Prelude.{
  ℕ, ◌+◌, ◌*◌, ◌%◌, ◌^◌, ◌-◌, Bool, true, false, Option, none, some, List, [], ◌∷◌, ◌++◌, ◌==◌, ltb,
  not, leb, ◌||◌, if◌then◌else◌, map, drop, length,
}
use roaraudio.Status.{Status, ok, failed}
use roaraudio.Memory.{copy}
use roaraudio.Proto.{Message, net32, host32}
use roaraudio.Text.{Chars, codes, same_letters}

-- `struct roar_audio_info`
pub record AudioInfo : Type 0 where
  pub rate : ℕ
  pub bits : ℕ
  pub channels : ℕ
  pub codec : ℕ

-- `struct roar_stream`
pub record Stream : Type 0 where
  pub id : ℕ
  pub fh : ℕ
  pub dir : ℕ
  pub care_pos : ℕ
  pub pos : ℕ
  pub pos_rel_id : ℕ
  pub info : AudioInfo

-- `roar_stream_new`, which fails after it has stored everything.
unfoldable pub stream_new : Stream → (rate channels bits codec : ℕ) → Status × Stream
stream_new s rate channels bits codec = (
  (if ltb 32 bits then failed else ok),
  record s {
    fh = 2 ^ 32 - 1;
    id = 2 ^ 32 - 1;
    pos = 0;
    pos_rel_id = 2 ^ 32 - 1;
    dir = 1;
    info = record { rate = rate; bits = bits; channels = channels; codec = codec };
  },
)

-- _ROAR_STREAM_MESSAGE_LEN
abbrev pub stream_size : ℕ
stream_size = 24

-- The six words of a stream, in network byte order.
abbrev pub words : Stream → List ℕ
words s =
    net32 s.dir
    ++ (net32 s.pos_rel_id
        ++ (net32 s.info.rate
            ++ (net32 s.info.bits ++ (net32 s.info.channels ++ net32 s.info.codec))))

-- `roar_stream_s2m`
unfoldable pub s2m : Stream → Message → Message
s2m s m = record m { datalen = stream_size; msg_data = copy m.msg_data 0 (words s); pos = s.pos }

-- `roar_stream_m2s`, `none` where it refuses the message. The words of `m->data`, which it turns to
-- the host's byte order in place, are not read again.
unfoldable pub m2s : Stream → Message → Option Stream
m2s s m =
    let d = m.msg_data in
    if not (m.datalen == stream_size)
    then none
    else some (record s {
      pos = m.pos;
      id = m.stream;
      dir = host32 d 0;
      pos_rel_id = host32 d 4;
      info = record {
        rate = host32 d 8;
        bits = host32 d 12;
        channels = host32 d 16;
        codec = host32 d 20;
      };
    })

-- `roar_info2samplesize`, in bits; `none` is -1. ROAR_CODEC_PCM_S_LE, _BE, _PDP and _PCM_U_LE, _BE,
-- _PDP are 1 to 3 and 5 to 7, _ALAW and _MULAW 48 and 52, _DMX512 112 and _RDS 128.
unfoldable pub info2samplesize : AudioInfo → Option ℕ
info2samplesize i =
    let c = i.codec in
    if (c == 1) || ((c == 2) || ((c == 3) || ((c == 5) || ((c == 6) || (c == 7)))))
    then some i.bits
    else if (c == 48) || (c == 52)
    then some 8
    else if c == 112
    then some 8
    else if c == 128
    then some 26
    else none

-- `ret *= k` in 64 bits. A `ret` of -1 that is no failure does not occur: `bits` has 32 bits.
abbrev pub scale : ℕ → Option ℕ → Option ℕ
scale k none = none
scale k (some n) = some (n * k % 2 ^ 64)

-- `roar_info2framesize`
unfoldable pub info2framesize : AudioInfo → Option ℕ
unfolding info2samplesize
info2framesize i = scale i.channels (info2samplesize i)

-- `roar_info2bitspersec`: the product of the two `unsigned int` wraps at 32 bits.
unfoldable pub info2bitspersec : AudioInfo → Option ℕ
unfolding info2samplesize
info2bitspersec i = scale (i.channels * i.rate % 2 ^ 32) (info2samplesize i)

abbrev format : (rate bits channels codec : ℕ) → AudioInfo
format rate bits channels codec = record {
  rate = rate;
  bits = bits;
  channels = channels;
  codec = codec;
}

-- `_libroar_aiprofiles` in front of its last entry
abbrev pub profiles : List (Chars × AudioInfo)
profiles =
    (codes "default", format 44100 16 2 1)
    ∷ (codes "wav", format 44100 16 2 32)
    ∷ (codes "au", format 44100 16 2 36)
    ∷ (codes "cd", format 44100 16 2 1)
    ∷ (codes "cdr", format 44100 16 2 2)
    ∷ (codes "dat", format 48000 16 2 1)
    ∷ (codes "isdn-eu", format 8000 8 1 48)
    ∷ (codes "isdn-na", format 8000 8 1 52)
    ∷ (codes "speex-nb", format 8000 16 2 27)
    ∷ (codes "speex-wb", format 16000 16 2 27)
    ∷ (codes "speex-uwb", format 32000 16 2 27)
    ∷ (codes "gsm", format 8000 16 1 56)
    ∷ (codes "rds", format 0 0 0 128)
    ∷ (codes "midi", format 0 8 16 96)
    ∷ (codes "dmx512", format 0 8 0 112)
    ∷ []

-- The loop of roar_profile2info.
abbrev pub find_profile : List (Chars × AudioInfo) → Chars → Option AudioInfo
find_profile [] profile = none
find_profile ((name, info) ∷ t) profile =
    if same_letters name profile then some info else find_profile t profile

-- `roar_profile2info`
unfoldable pub profile2info : Chars → Option AudioInfo
profile2info profile = find_profile profiles profile

-- `roar_profiles_list`: what it stores from `list` on, one pointer after the other; the result is
-- their number. The table has sixteen entries, the last one included.
unfoldable pub profiles_list : (len offset : ℕ) → List Chars
profiles_list len offset =
    if len == 0 then [] else if leb 16 offset then [] else drop offset (map (λ p. p.0) profiles)
