-- ===== src/Interleave/RoundTrip.antt =====
-- roar_interl_encode_ext and then roar_interl_decode_ext (libroardsp/interleave.c).
use roaraudio.Prelude.{
  ℕ, zero, suc, ◌≤◌, ◌<◌, ◌≡◌, refl, sym, ap, ◌∙◌, inl, inr, some, List, [], ◌∷◌, ◌++◌, ◌==◌,
  length, arith, Bool-cases, lt→ltb,
}
use mathlib.Core.List.{append_assoc}
use roaraudio.Meta.{done}
use roaraudio.Interleave.{
  Interleave, Pointers, update, next_bc, next_chan, take_byte, encode_loop, decode_loop, result,
  encode, decode, init,
}

-- Every channel has `len` bytes left.
abbrev HasBytes : Interleave → ℕ → Pointers → Type 0
HasBytes s len ip = (i : ℕ) → i < s.channels → len ≤ length (ip i)

next_chan_lem :
    (s : Interleave) (chan bc : ℕ) → chan < s.channels → next_chan s chan bc < s.channels
next_chan_lem s chan bc h = ground arith

not_empty :
    (len : ℕ) (l : List ℕ)
    → suc len ≤ length l
    → (b : ℕ) × (bs : List ℕ) × (l ≡ b ∷ bs) × (len ≤ length bs)
not_empty len [] h = absurd (omega arith)
not_empty len (b ∷ bs) h = (b, bs, refl, omega arith)

take_byte_lem :
    (s : Interleave) (len chan : ℕ) (ip : Pointers)
    → chan < s.channels
    → HasBytes s (suc len) ip
    → (b : ℕ) × (bs : List ℕ) × (ip chan ≡ b ∷ bs)
      × (take_byte s chan ip ≡ done (b, update ip chan bs))
      × HasBytes s len (update ip chan bs)
unfolding take_byte
take_byte_lem s len chan ip h have =
    let c = not_empty len (ip chan) (have chan h) in
    (
      c.0,
      c.1,
      c.2,
      rw (lt→ltb chan s.channels h) (rw c.2 refl),
      λ i inside. elim (Bool-cases (chan == i)) [
        | inl same ↦ rw same c.3
        | inr other ↦ rw other (omega (arith, have i inside))
      ],
    )

-- A byte that goes from one side to the other.
passed :
    (op ip : Pointers) (chan b : ℕ) (bs : List ℕ) (i : ℕ)
    → ip chan ≡ b ∷ bs
    → update op chan (op chan ++ (b ∷ [])) i ++ update ip chan bs i ≡ op i ++ ip i
passed op ip chan b bs i e = elim (Bool-cases (chan == i)) [
  | inl same ↦
      let here : chan ≡ i = ground arith in
      rw same (
        append_assoc (op chan) (b ∷ []) bs
        ∙ ap (λ l. op chan ++ l) (sym e)
        ∙ ap (λ j. op j ++ ip j) here)
  | inr other ↦ rw other refl
]

round_trip :
    (s : Interleave) (len chan bc : ℕ) (ip op : Pointers)
    → chan < s.channels
    → HasBytes s len ip
    → (out : List ℕ) × (ip' op' : Pointers) × (encode_loop s len chan bc ip ≡ done (out, ip'))
      × (length out ≡ len)
      × (decode_loop s chan bc out op ≡ done op')
      × ((i : ℕ) → op' i ++ ip' i ≡ op i ++ ip i)
unfolding encode_loop decode_loop
round_trip s zero chan bc ip op h have = ([], ip, op, refl, refl, refl, λ i. refl)
round_trip s (suc len) chan bc ip op h have =
    let t = take_byte_lem s len chan ip h have in
    let op1 = update op chan (op chan ++ (t.0 ∷ [])) in
    let r =
      round_trip s len (next_chan s chan bc) (next_bc s bc) (update ip chan t.1) op1
        (next_chan_lem s chan bc h) t.4 in
    (
      t.0 ∷ r.0,
      r.1,
      r.2,
      rw t.3 (rw r.3 refl),
      ap suc r.4,
      rw (lt→ltb chan s.channels h) r.5,
      λ i. r.6 i ∙ passed op ip chan t.0 t.1 i t.2,
    )

-- `roar_interl_encode_ext` and then `roar_interl_decode_ext` of `len` bytes, after a `roar_interl_init`
-- that succeeded with a channel or more: with `len` bytes left in each channel neither touches
-- memory that it may not, `len` bytes lie between them, and what the decoder wrote for a
-- channel followed by what the encoder left of it is the channel. Both report a failure, unless
-- `len` is 0.
pub decode-encode :
    (s : Interleave) (channels bits len : ℕ) (ip : Pointers)
    → init channels bits ≡ some s
    → 0 < channels
    → ((i : ℕ) → i < channels → len ≤ length (ip i))
    → (out : List ℕ) × (rest back : Pointers) × (encode s ip len ≡ done (result len, out, rest))
      × (length out ≡ len)
      × (decode s out len ≡ done (result len, back))
      × ((i : ℕ) → back i ++ rest i ≡ ip i)
unfolding init encode decode
decode-encode s channels bits len ip ready some_channel have =
    let same : s.channels ≡ channels = ground arith in
    let r =
      round_trip s len 0 0 ip (λ i. []) (omega (arith, same))
        (λ i h. have i (omega (arith, same))) in
    (r.0, r.1, r.2, rw r.3 refl, r.4, rw r.5 refl, r.6)
