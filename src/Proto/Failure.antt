-- ===== src/Proto/Failure.antt =====
-- The error paths of roar_vsend_message and roar_vrecv_message (libroar/proto.c).
use roaraudio.Prelude.{
  ℕ, ◌<◌, ◌≡◌, ◌≢◌, ◌^◌, refl, ◌∙◌, ap, Bool, true, false, Option, none, some, List, ◌++◌, arith,
  length, take, get_or, ==-ne,
}
use mathlib.Core.List.{append_assoc}
use roaraudio.Vio.{VioCalls, Reader, vio_read, vio_write}
use roaraudio.Proto.{
  Message, pipe, proto, msgsize, bad, header_size, msgdata_size, encode_header, decode_start,
  vsend_message, write_all, recv_rest, recv_data, vrecv_message, extend_stream, decode_rest,
}
use roaraudio.Proto.Header.{header0, carried, decode_start-header0}
use roaraudio.Proto.Frame.{frame, vrecv_message-start, extend_stream-keeps}

module _ {S : Type 0} where
  -- A write that takes fewer or more bytes than the header has, or fails, ends the send with
  -- ROAR_ERROR_PIPE, and no payload is written: the transport is left as that write left it.
  vsend_message-short :
      (vio : Option (VioCalls S)) (mes : Message) (payload : Option (List ℕ)) (s s' : S)
      (n : Option ℕ)
      → vio_write vio s (header0 mes) ≡ (n, s')
      → n ≢ some header_size
      → vsend_message vio mes payload s ≡ (bad pipe, s')
  unfolding vsend_message write_all encode_header
  vsend_message-short vio mes payload s s' none e h = rw e
  vsend_message-short vio mes payload s s' (some n) e h =
      let miss : n ≢ header_size = λ q. h (ap some q) in rw (e, ==-ne n header_size miss)

  -- A header that does not come whole ends the receive with ROAR_ERROR_PROTO, after one read.
  pub vrecv_message-short :
      (vio : Option (VioCalls S)) (wanted memory : Bool) (s s' : S) (got : Option (List ℕ))
      → vio_read vio s header_size ≡ (got, s')
      → ((buf : List ℕ) → got ≡ some buf → length buf ≢ header_size)
      → vrecv_message vio true wanted memory s ≡ (bad proto, s')
  unfolding vrecv_message
  vrecv_message-short vio wanted memory s s' none e h = rw e
  vrecv_message-short vio wanted memory s s' (some buf) e h =
      rw (e, ==-ne (length buf) header_size (h buf refl))

module _ {S : Type 0} (r : Reader S) where
  -- A header of a version other than 0 and 2 is refused with ROAR_ERROR_PROTO once its ten bytes
  -- are read: nothing of what follows is taken.
  pub vrecv_message-version :
      (header rest : List ℕ) (wanted memory : Bool) (s : S)
      → r.pending s ≡ header ++ rest
      → length header ≡ header_size
      → get_or header 0 0 < 256
      → get_or header 0 0 ≢ 0
      → get_or header 0 0 ≢ 2
      → (s' : S) × (vrecv_message r.calls true wanted memory s ≡ (bad proto, s'))
        × (r.pending s' ≡ rest)
  unfolding recv_rest
  vrecv_message-version header rest wanted memory s p n byte ne0 ne2 =
      let first = vrecv_message-start r header rest wanted memory s p n in
      let unread : decode_start header ≡ none = unfold decode_start in ground arith in
      let stop = ap (λ o. recv_rest r.calls wanted memory header o first.0) unread in
      (first.0, first.1 ∙ stop, first.2)

  -- A frame whose payload fits no message, received by a caller that gives no place for it, ends
  -- with ROAR_ERROR_MSGSIZE, and its payload is left on the transport.
  pub vrecv_message-no_place :
      (mes : Message) (body rest : List ℕ) (memory : Bool) (s : S)
      → r.pending s ≡ frame mes body ++ rest
      → mes.datalen < 2 ^ 16
      → msgdata_size < mes.datalen
      → (s' : S) × (vrecv_message r.calls true false memory s ≡ (bad msgsize, s'))
        × (r.pending s' ≡ take mes.datalen body ++ rest)
  unfolding recv_rest frame recv_data decode_rest
  vrecv_message-no_place mes body rest memory s p fits big =
      let load = take mes.datalen body in
      let first =
        vrecv_message-start r (header0 mes) (load ++ rest) false memory s
          (p ∙ append_assoc (header0 mes) load rest) refl in
      let start =
        ap (λ o. recv_rest r.calls false memory (header0 mes) o first.0)
          (decode_start-header0 mes) in
      let keeps = extend_stream-keeps (carried mes) in
      let stop : recv_data r.calls false memory (extend_stream (carried mes)) first.0
          ≡ (bad msgsize, first.0) =
        ground (arith, keeps) in
      (first.0, first.1 ∙ start ∙ stop, first.2)
