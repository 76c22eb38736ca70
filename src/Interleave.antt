-- ===== src/Interleave.antt =====
-- libroardsp/interleave.c: the samples of several channels in one block of memory, and back.
-- A channel is the list of the bytes that its pointer leads to; `in`, `out` and `state` are given.
pub mod RoundTrip
mod Tests
use roaraudio.Prelude.{
  ℕ, zero, suc, ◌+◌, ◌%◌, Bool, true, false, Option, none, some, List, [], ◌∷◌, ◌++◌, ◌==◌, ltb,
  not, if◌then◌else◌,
}
use roaraudio.Status.{Status, ok, failed}
use roaraudio.Meta.{Run, done, fault, ◌>>=◌, and_then, pure}

-- `struct roar_interleave`
pub record Interleave : Type 0 where
  pub channels : ℕ
  pub bits : ℕ

-- `roar_interl_init`, `none` where it fails; ROAR_INTERLEAVE_MAX_CHANNELS is 16.
unfoldable pub init : (channels bits : ℕ) → Option Interleave
init channels bits =
    if not (bits % 8 == 0)
    then none
    else if ltb 16 channels
    then none
    else some (record { channels = channels; bits = bits })

-- `roar_interl_uninit`
abbrev pub uninit : Interleave
uninit = record { channels = 0; bits = 0 }

-- `roar_interl_ctl`, with `state` given or not
abbrev pub ctl : (state : Option Interleave) (cmd : ℕ) → Status
ctl none cmd = failed
ctl (some s) cmd = failed

-- The array of pointers, of which `channels` are set.
abbrev pub Pointers : Type 0
Pointers = ℕ → List ℕ

abbrev pub update : Pointers → ℕ → List ℕ → Pointers
update p i l j = if i == j then l else p j

-- The counters after a byte: `bc += 8`, and the next channel once a sample is complete.
abbrev pub next_bc : Interleave → ℕ → ℕ
next_bc s bc = if bc + 8 == s.bits then 0 else bc + 8

abbrev pub next_chan : Interleave → (chan bc : ℕ) → ℕ
next_chan s chan bc =
    if bc + 8 == s.bits then (if chan + 1 == s.channels then 0 else chan + 1) else chan

-- `*(ip[chan])` and `ip[chan]++`: a pointer that is not set or stands behind its channel's bytes is
-- a fault.
abbrev pub fetch : List ℕ → Run (ℕ × List ℕ)
fetch [] = fault
fetch (b ∷ bs) = done (b, bs)

unfoldable pub take_byte : Interleave → (chan : ℕ) → Pointers → Run (ℕ × Pointers)
take_byte s chan ip =
    if ltb chan s.channels then (do r ← fetch (ip chan); pure (r.0, update ip chan r.1)) else fault

-- The loop of roar_interl_encode_ext: `out`, and the pointers behind it.
pub encode_loop : Interleave → (len chan bc : ℕ) → Pointers → Run (List ℕ × Pointers)
unfolding take_byte
encode_loop s zero chan bc ip = done ([], ip)
encode_loop s (suc len) chan bc ip = do
  r ← take_byte s chan ip
  t ← encode_loop s len (next_chan s chan bc) (next_bc s bc) r.1
  pure (r.0 ∷ t.0, t.1)

-- `*(op[chan]) = b` and `op[chan]++`: what was written through each pointer, in order.
abbrev pub put_byte : Interleave → (chan : ℕ) → ℕ → Pointers → Run Pointers
put_byte s chan b op =
    if ltb chan s.channels then done (update op chan (op chan ++ (b ∷ []))) else fault

-- The loop of roar_interl_decode_ext over the `len` bytes of `in`.
pub decode_loop : Interleave → (chan bc : ℕ) → List ℕ → Pointers → Run Pointers
decode_loop s chan bc [] op = done op
decode_loop s chan bc (b ∷ bs) op = do
  op' ← put_byte s chan b op
  decode_loop s (next_chan s chan bc) (next_bc s bc) bs op'

-- Both end with `return -1` unless `len` is 0.
abbrev pub result : ℕ → Status
result len = if len == 0 then ok else failed

-- `roar_interl_encode_ext`
unfoldable pub encode : Interleave → Pointers → (len : ℕ) → Run (Status × List ℕ × Pointers)
unfolding encode_loop
encode s ip len = do r ← encode_loop s len 0 0 ip; pure (result len, r.0, r.1)

-- `roar_interl_decode_ext`; `len` is the length of `block`.
unfoldable pub decode : Interleave → (block : List ℕ) → (len : ℕ) → Run (Status × Pointers)
unfolding decode_loop
decode s block len = do op ← decode_loop s 0 0 block (λ i. []); pure (result len, op)
