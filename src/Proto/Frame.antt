-- ===== src/Proto/Frame.antt =====
-- What roar_vsend_message puts on the wire and roar_vrecv_message takes from it (libroar/proto.c),
-- over a transport that loses nothing.
use roaraudio.Prelude.{
  ℕ, zero, suc, ◌%◌, ◌^◌, ◌≤◌, ◌<◌, ◌≡◌, refl, Bool, true, Option, none, some, List, [], ◌∷◌, ◌++◌,
  arith, length, take, drop, length-take, length-append, leb, if◌then◌else◌, ap, ◌∙◌, ==-self,
  ==-ne, ◌==◌, ◌⊎◌,
}
use mathlib.Core.List.{append-nil, append_assoc}
use roaraudio.Vio.{Writer, Reader}
use roaraudio.Proto.{
  recv_rest, decode_start, ◌>>=◌, Io, pure, Message, Errno, pipe, proto, good, Received,
  header_size, msgdata_size, write_all, read_all, encode_header, vsend_message, recv_data,
  vrecv_message, extend_stream, decode_rest,
}
use roaraudio.Proto.Header.{header0, carried, decode_start-header0}

take-length-append {ℓ} : {A : Type ℓ} (xs ys : List A) → take (length xs) (xs ++ ys) ≡ xs
take-length-append [] ys = refl
take-length-append (x ∷ xs) ys = rw (take-length-append xs ys)

pub drop-length-append {ℓ} : {A : Type ℓ} (xs ys : List A) → drop (length xs) (xs ++ ys) ≡ ys
drop-length-append [] ys = refl
drop-length-append (x ∷ xs) ys = drop-length-append xs ys

-- The payload that roar_vsend_message uses: `data`, or the message's own.
abbrev pub payload_of : Message → Option (List ℕ) → List ℕ
payload_of mes payload = elim payload [ none ↦ mes.msg_data | some p ↦ p ]

-- header and payload
unfoldable pub frame : Message → List ℕ → List ℕ
frame mes body = header0 mes ++ take mes.datalen body

pub >>=-good :
    {S A B : Type 0} (m : Io S A) (f : A → Io S B) {a : A} {s s' : S}
    → m s ≡ (good a, s')
    → (m >>= f) s ≡ f a s'
>>=-good m f e = rw e

module _ {S : Type 0} (w : Writer S) where
  write_all-sent :
      (buf : List ℕ) (s : S)
      → (s' : S) × (write_all w.calls buf s ≡ (good tt, s')) × (w.sent s' ≡ w.sent s ++ buf)
  unfolding write_all
  write_all-sent buf s = let t = w.takes_all s buf in (t.0, rw (t.1, ==-self (length buf)), t.2)

  -- the write of the payload, which is left out when there is none
  write_payload-sent :
      (n : ℕ) (body : List ℕ) (s : S)
      → (s' : S) × ((if n == 0 then pure tt else write_all w.calls (take n body)) s ≡ (good tt, s'))
        × (w.sent s' ≡ w.sent s ++ take n body)
  write_payload-sent zero body s = (s, refl, rw append-nil)
  write_payload-sent (suc n) body s =
      rw (==-ne (suc n) 0 (ground arith)) (write_all-sent (take (suc n) body) s)

  -- `roar_vsend_message` over a writer that takes all puts exactly the header and the first
  -- `datalen` bytes of the payload behind what was sent before, and succeeds.
  pub vsend_message-frame :
      (mes : Message) (payload : Option (List ℕ)) (s : S)
      → (s' : S) × (vsend_message w.calls mes payload s ≡ (good (record mes { version = 0 }), s'))
        × (w.sent s' ≡ w.sent s ++ frame mes (payload_of mes payload))
  unfolding vsend_message encode_header frame
  vsend_message-frame mes payload s =
      let first = write_all-sent (header0 mes) s in
      let second = write_payload-sent mes.datalen (payload_of mes payload) first.0 in
      (
        second.0,
        rw (first.1, second.1),
        rw (second.2, first.2)
            (append_assoc (w.sent s) (header0 mes) (take mes.datalen (payload_of mes payload))),
      )

-- Where the payload goes: into the message if it fits there, or into memory of its own.
abbrev pub place : Message → List ℕ → Received
place m body =
    if leb (length body) msgdata_size
    then record { mes = record m { msg_data = body }; heap = none }
    else record { mes = m; heap = some body }

-- What roar_vrecv_message makes of a frame: the fields that its header carries, with the stream
-- number -1 restored, and the payload.
unfoldable pub received : Message → List ℕ → Received
received mes body = place (extend_stream (carried mes)) body

pub extend_stream-keeps :
    (m : Message)
    → ((extend_stream m).datalen ≡ m.datalen) × ((extend_stream m).msg_data ≡ m.msg_data)
unfolding extend_stream
extend_stream-keeps m = ground arith

module _ {S : Type 0} (r : Reader S) where
  pub read_all-pending :
      (s : S) (buf rest : List ℕ) (e : Errno)
      → r.pending s ≡ buf ++ rest
      → (s' : S) × (read_all r.calls (length buf) e s ≡ (good buf, s')) × (r.pending s' ≡ rest)
  unfolding read_all
  read_all-pending s buf rest e p =
      let t = r.gives_all s (length buf) (rw p (omega (arith, length-append buf rest))) in
      let got : take (length buf) (r.pending s) ≡ buf = rw p (take-length-append buf rest) in
      (t.0, rw (t.1, got, ==-self (length buf)), t.2 ∙ rw p (drop-length-append buf rest))

  recv_data-place :
      (m : Message) (body rest : List ℕ) (wanted memory : Bool) (s : S)
      → r.pending s ≡ body ++ rest
      → m.datalen ≡ length body
      → m.msg_data ≡ []
      → (m.datalen ≤ msgdata_size) ⊎ ((wanted ≡ true) × (memory ≡ true))
      → (s' : S) × (recv_data r.calls wanted memory m s ≡ (good (place m body), s'))
        × (r.pending s' ≡ rest)
  unfolding recv_data
  recv_data-place m [] rest wanted memory s p n empty room = (s, ground arith, p)
  recv_data-place m (x ∷ body) rest wanted memory s p n empty room =
      let t = read_all-pending s (x ∷ body) rest pipe p in (t.0, ground (arith, t.1), t.2)

  -- Over such a reader `roar_vrecv_message` comes past the read of the header.
  pub vrecv_message-start :
      (header rest : List ℕ) (wanted memory : Bool) (s : S)
      → r.pending s ≡ header ++ rest
      → length header ≡ header_size
      → (s' : S) × (vrecv_message r.calls true wanted memory s
          ≡ recv_rest r.calls wanted memory header (decode_start header) s')
        × (r.pending s' ≡ rest)
  unfolding vrecv_message
  vrecv_message-start header rest wanted memory s p n =
      let t = read_all-pending s header rest proto p in (t.0, rw (← n, t.1), t.2)

  -- `roar_vrecv_message` on the bytes of a frame.
  pub vrecv_message-frame :
      (mes : Message) (body rest : List ℕ) (wanted memory : Bool) (s : S)
      → r.pending s ≡ frame mes body ++ rest
      → mes.datalen < 2 ^ 16
      → mes.datalen ≤ length body
      → (mes.datalen ≤ msgdata_size) ⊎ ((wanted ≡ true) × (memory ≡ true))
      → (s' : S) × (vrecv_message r.calls true wanted memory s
          ≡ (good (received mes (take mes.datalen body)), s'))
        × (r.pending s' ≡ rest)
  unfolding frame received recv_rest decode_rest
  vrecv_message-frame mes body rest wanted memory s p fits have room =
      let load = take mes.datalen body in
      let small : mes.datalen % 2 ^ 16 ≡ mes.datalen = omega arith in
      let keeps = extend_stream-keeps (carried mes) in
      let first =
        vrecv_message-start (header0 mes) (load ++ rest) wanted memory s
          (p ∙ append_assoc (header0 mes) load rest) refl in
      let start =
        ap (λ o. recv_rest r.calls wanted memory (header0 mes) o first.0)
          (decode_start-header0 mes) in
      let second =
        recv_data-place (extend_stream (carried mes)) load rest wanted memory first.0 first.2
          (omega (arith, keeps.0, length-take mes.datalen body)) keeps.1
          (rw (keeps.0, small) room) in
      (second.0, first.1 ∙ start ∙ second.1, second.2)
