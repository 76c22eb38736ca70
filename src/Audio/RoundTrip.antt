-- ===== src/Audio/RoundTrip.antt =====
-- roar_stream_s2m and roar_stream_m2s (libroar/stream.c), and the message between them on its way
-- through roar_vsend_message and roar_vrecv_message (libroar/proto.c).
use roaraudio.Prelude.{
  ℕ, ◌^◌, ◌<◌, ◌≡◌, inl, refl, ◌∙◌, ap, true, false, none, some, List, ◌++◌, arith, length, drop,
}
use roaraudio.Memory.{copy}
use roaraudio.Vio.{Writer, Reader}
use roaraudio.Proto.{Message, good, Received, vsend_message, vrecv_message, net32, host32}
use roaraudio.Proto.Header.{digits32}
use roaraudio.Proto.Frame.{place}
use roaraudio.Proto.RoundTrip.{InRange, fields, vrecv_message-vsend_message}
use roaraudio.Audio.{Stream, words, s2m, m2s, stream_size}

-- Every number of a stream fits its 32 bits.
pub record IsStream (s : Stream) : Type 0 where
  pub dir : s.dir < 2 ^ 32
  pub pos : s.pos < 2 ^ 32
  pub pos_rel_id : s.pos_rel_id < 2 ^ 32
  pub rate : s.info.rate < 2 ^ 32
  pub bits : s.info.bits < 2 ^ 32
  pub channels : s.info.channels < 2 ^ 32
  pub codec : s.info.codec < 2 ^ 32

-- What `u` becomes: all of `s` but the handle and `care_pos`, with the number of the message.
abbrev pub described : (s u : Stream) → (stream : ℕ) → Stream
described s u stream = record s { id = stream; fh = u.fh; care_pos = u.care_pos }

word : (n : ℕ) → n < 2 ^ 32 → host32 (net32 n) 0 ≡ n
word n h = digits32 n ∙ omega arith

module _ (s u : Stream) (v : IsStream s) where
  m2s-words :
      (m : Message)
      → m.datalen ≡ stream_size
      → m.msg_data ≡ words s
      → m.pos ≡ s.pos
      → m2s u m ≡ some (described s u m.stream)
  unfolding m2s
  m2s-words m size body position =
      rw (size, body, position)
        (ap some (
          cc (
            word s.dir v.dir,
            word s.pos_rel_id v.pos_rel_id,
            word s.info.rate v.rate,
            word s.info.bits v.bits,
            word s.info.channels v.channels,
            word s.info.codec v.codec,
          )))

module _ {S R : Type 0} (w : Writer S) (r : Reader R) where
  -- A stream whose numbers fit 32 bits, put with `roar_stream_s2m` into a message whose fields fit
  -- the header, sent over a transport that loses nothing, and taken out with `roar_stream_m2s`, is
  -- the same on the other side: direction, position, related stream and format arrive as they
  -- were, the number is the message's, the handle and `care_pos` of the receiver's struct stay,
  -- and what follows on the transport is untouched.
  pub m2s-s2m :
      (s u : Stream) (mes : Message) (rest : List ℕ) (t t' : S) (q : R) {m : Message}
      → IsStream s
      → InRange (s2m s mes)
      → vsend_message w.calls (s2m s mes) none t ≡ (good m, t')
      → r.pending q ≡ drop (length (w.sent t)) (w.sent t') ++ rest
      → (q' : R) × (got : Received) × (vrecv_message r.calls true false false q ≡ (good got, q'))
        × (m2s u got.mes ≡ some (described s u mes.stream))
        × (r.pending q' ≡ rest)
  unfolding s2m copy
  m2s-s2m s u mes rest t t' q v range sent p =
      let out =
        vrecv_message-vsend_message w r (s2m s mes) none rest false false t t' q range (omega arith)
          (inl (omega arith)) sent p in
      (
        out.0,
        place (fields (s2m s mes)) (words s),
        out.1,
        m2s-words s u v (place (fields (s2m s mes)) (words s)).mes refl refl refl,
        out.2,
      )
