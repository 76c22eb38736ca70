-- ===== src/Audio/Tests.antt =====
-- Runs of the theorems on streams, their names and their formats.
use roaraudio.Prelude.{ℕ, ◌≡◌, inl, refl, true, false, some, none, List, [], ◌∷◌, ◌++◌, arith}
use roaraudio.Vio.{vio_write}
use roaraudio.Proto.{
  Message, zeroed, good, Received, vsend_message, vrecv_message, write_all, encode_header,
}
use roaraudio.Proto.RoundTrip.{InRange}
use roaraudio.Proto.Tests.{queue, writer, reader}
use roaraudio.Memory.{copy}
use roaraudio.Text.{codes}
use roaraudio.Audio.{Stream, s2m, m2s}
use roaraudio.Audio.Names.{str2codec, minus_one}
use roaraudio.Audio.RoundTrip.{IsStream, described, m2s-s2m}

abbrev playback : Stream
playback = record {
  id = 7;
  fh = 4;
  dir = 1;
  care_pos = 0;
  pos = 90000;
  pos_rel_id = minus_one;
  info = record { rate = 44100; bits = 16; channels = 2; codec = 1 };
}

abbrev blank : Stream
blank = record {
  id = 0;
  fh = 0;
  dir = 0;
  care_pos = 1;
  pos = 0;
  pos_rel_id = 0;
  info = record { rate = 0; bits = 0; channels = 0; codec = 0 };
}

abbrev request : Message
request = record zeroed { cmd = 3; stream = 7 }

playback-IsStream : IsStream playback
playback-IsStream = record {
  dir = omega arith;
  pos = omega arith;
  pos_rel_id = omega arith;
  rate = omega arith;
  bits = omega arith;
  channels = omega arith;
  codec = omega arith;
}

request-InRange : InRange (s2m playback request)
unfolding s2m
request-InRange = record {
  cmd = omega arith;
  stream = inl (omega arith);
  pos = omega arith;
  datalen = omega arith;
}

abbrev sent_bytes : List ℕ
sent_bytes = (vsend_message queue (s2m playback request) none []).1

sent_lem :
    vsend_message queue (s2m playback request) none [] ≡ (good (s2m playback request), sent_bytes)
unfolding s2m vsend_message write_all vio_write encode_header copy
sent_lem = refl

m2s-s2m_example :
    (q : List ℕ) × (got : Received) × (vrecv_message queue true false false (sent_bytes ++ 5 ∷ [])
      ≡ (good got, q))
    × (m2s blank got.mes ≡ some (described playback blank 7))
    × (q ≡ 5 ∷ [])
unfolding s2m
m2s-s2m_example =
    m2s-s2m writer reader playback blank request (5 ∷ []) [] sent_bytes (sent_bytes ++ 5 ∷ [])
      playback-IsStream request-InRange sent_lem refl

wave_test : str2codec (some (codes "Wave")) ≡ 32
unfolding str2codec
wave_test = refl
