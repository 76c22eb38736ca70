-- ===== src/Proto/RoundTrip.antt =====
-- roar_vsend_message followed by roar_vrecv_message (libroar/proto.c): the message arrives.
use roaraudio.Prelude.{
  ℕ, ◌-◌, ◌^◌, ◌≤◌, ◌<◌, ◌≡◌, sym, ◌∙◌, Bool, true, Option, List, ◌++◌, arith, ap, length, take,
  drop, ◌⊎◌,
}
use roaraudio.Vio.{Writer, Reader}
use roaraudio.Proto.{
  Message, zeroed, good, msgdata_size, vsend_message, vrecv_message, extend_stream,
}
use roaraudio.Proto.Header.{carried}
use roaraudio.Proto.Frame.{
  payload_of, frame, place, received, vsend_message-frame, vrecv_message-frame, drop-length-append,
}

-- What the header of version 0 has room for. The stream number -1, which stands for no stream, is
-- sent as 65535, so 65535 itself is not one that arrives.
pub record InRange (mes : Message) : Type 0 where
  pub cmd : mes.cmd < 256
  pub stream : (mes.stream < 2 ^ 16 - 1) ⊎ (mes.stream ≡ 2 ^ 32 - 1)
  pub pos : mes.pos < 2 ^ 32
  pub datalen : mes.datalen < 2 ^ 16

-- the fields of a message that version 0 sends
abbrev pub fields : Message → Message
fields mes = record zeroed {
  cmd = mes.cmd;
  stream = mes.stream;
  pos = mes.pos;
  datalen = mes.datalen;
}

extend_stream-carried : (mes : Message) → InRange mes → extend_stream (carried mes) ≡ fields mes
unfolding extend_stream
extend_stream-carried mes v = ground arith

module _ {S R : Type 0} (w : Writer S) (r : Reader R) where
  -- Over a transport that loses nothing, a message whose fields fit the header arrives: the receiver
  -- gets the command, the stream (-1 included), the position, the length and the first `datalen`
  -- bytes of the payload as they were sent, in the message if they fit there and in memory of their
  -- own otherwise, and finds what follows them, `rest`, untouched.
  pub vrecv_message-vsend_message :
      (mes : Message) (payload : Option (List ℕ)) (rest : List ℕ) (wanted memory : Bool) (s s' : S)
      (t : R) {m : Message}
      → InRange mes
      → mes.datalen ≤ length (payload_of mes payload)
      → (mes.datalen ≤ msgdata_size) ⊎ ((wanted ≡ true) × (memory ≡ true))
      → vsend_message w.calls mes payload s ≡ (good m, s')
      → r.pending t ≡ drop (length (w.sent s)) (w.sent s') ++ rest
      → (t' : R) × (vrecv_message r.calls true wanted memory t
          ≡ (good (place (fields mes) (take mes.datalen (payload_of mes payload))), t'))
        × (r.pending t' ≡ rest)
  unfolding received
  vrecv_message-vsend_message mes payload rest wanted memory s s' t v have room sent p =
      let body = payload_of mes payload in
      let out = vsend_message-frame w mes payload s in
      let same : out.0 ≡ s' = ap (λ o. o.1) (sym out.1 ∙ sent) in
      let wire : drop (length (w.sent s)) (w.sent s') ≡ frame mes body =
        rw (← same, out.2) (drop-length-append (w.sent s) (frame mes body)) in
      let q : r.pending t ≡ frame mes body ++ rest = rw (← wire) p in
      let got = vrecv_message-frame r mes body rest wanted memory t q v.datalen have room in
      let restored =
        ap (λ m. good (place m (take mes.datalen body))) (extend_stream-carried mes v) in
      (got.0, got.1 ∙ ap (λ o. (o, got.0)) restored, got.2)
