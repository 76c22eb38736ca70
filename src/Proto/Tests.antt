-- ===== src/Proto/Tests.antt =====
-- The functions of libroar/proto.c on a transport that is a list of bytes, and the theorems there.
use mathlib.Core.Logic.{inl, inr}
use roaraudio.Prelude.{
  ℕ, ◌-◌, ◌≡◌, ◌^◌, refl, true, false, Option, none, some, List, [], ◌∷◌, ◌++◌, arith, length, take,
  drop,
}
use roaraudio.Vio.{VioCalls, Reader, Writer, vio_read, vio_write}
use roaraudio.Proto.{
  Message, zeroed, good, encode_header, decode_start, decode_rest, vsend_message, vrecv_message,
  write_all, extend_stream,
}
use roaraudio.Proto.RoundTrip.{InRange, vrecv_message-vsend_message}

-- A transport that keeps what is written and gives it back in order.
abbrev pub queue : Option (VioCalls (List ℕ))
queue = some (record {
  read = some (λ s n. (some (take n s), drop n s));
  write = some (λ s buf. (some (length buf), s ++ buf));
})

pub queue_takes : (s buf : List ℕ) → vio_write queue s buf ≡ (some (length buf), s ++ buf)
unfolding vio_write
queue_takes s buf = refl

pub queue_gives : (s : List ℕ) (n : ℕ) → vio_read queue s n ≡ (some (take n s), drop n s)
unfolding vio_read
queue_gives s n = refl

abbrev pub writer : Writer (List ℕ)
writer = record {
  calls = queue;
  sent = λ s. s;
  takes_all = λ s buf. (s ++ buf, queue_takes s buf, refl);
}

abbrev pub reader : Reader (List ℕ)
reader = record {
  calls = queue;
  pending = λ s. s;
  gives_all = λ s n h. (drop n s, queue_gives s n, refl);
}

-- a command on stream -1 with three bytes of payload
abbrev command : Message
command = record zeroed {
  cmd = 13;
  stream = 2 ^ 32 - 1;
  pos = 70000;
  datalen = 3;
  msg_data = 7 ∷ 8 ∷ 9 ∷ [];
}

-- its bytes on the wire
abbrev wire : List ℕ
wire = 0 ∷ 13 ∷ 255 ∷ 255 ∷ 0 ∷ 1 ∷ 17 ∷ 112 ∷ 0 ∷ 3 ∷ 7 ∷ 8 ∷ 9 ∷ []

vsend_message_test : vsend_message queue command none [] ≡ (good command, wire)
unfolding vsend_message write_all vio_write encode_header
vsend_message_test = refl

vrecv_message_test :
    vrecv_message queue true false false (wire ++ 1 ∷ [])
    ≡ (good (record { mes = command; heap = none }), 1 ∷ [])
unfolding vrecv_message vio_read decode_start decode_rest extend_stream
vrecv_message_test = refl

command-InRange : InRange command
command-InRange = record {
  cmd = omega arith;
  stream = inr refl;
  pos = omega arith;
  datalen = omega arith;
}

vrecv_message-vsend_message_example :
    (t' : List ℕ) × (vrecv_message queue true false false (wire ++ 1 ∷ [])
      ≡ (good (record { mes = command; heap = none }), t'))
    × (t' ≡ 1 ∷ [])
vrecv_message-vsend_message_example =
    vrecv_message-vsend_message writer reader command none (1 ∷ []) false false [] wire
      (wire ++ 1 ∷ []) command-InRange (omega arith) (inl (omega arith)) vsend_message_test refl

-- a payload of 81 bytes
abbrev large : Message
large = record zeroed { cmd = 13; datalen = 81 }
