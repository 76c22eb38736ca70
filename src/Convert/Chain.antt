-- ===== src/Convert/Chain.antt =====
-- libroardsp/convert.c: roar_conv, which chains the conversions. The numbers of a format are unsigned
-- ints; `samples` is no less than 0. The conversion of rates is an argument, and so is the place of
-- the memory that is allocated where the output is too small for the steps.
use roaraudio.Prelude.{
  ℕ, ◌*◌, ◌/◌, ◌%◌, ◌^◌, Bool, Option, none, some, ◌==◌, ltb, not, if◌then◌else◌,
}
use roaraudio.Status.{Status, ok, failed}
use roaraudio.Meta.{Run, done, fault, ◌>>=◌, pure}
use roaraudio.Audio.{AudioInfo}
use roaraudio.Convert.{Block}
use roaraudio.Convert.Bits.{conv_bits, conv_signedness, memcpy, returns}
use roaraudio.Convert.Endian.{conv_endian, order_native}
use roaraudio.Convert.Chans.{conv_chans}

-- `ROAR_CODEC_BYTE_ORDER` and `ROAR_CODEC_IS_SIGNED`
abbrev pub byte_order : ℕ → ℕ
byte_order codec = codec % 4

abbrev pub is_signed : ℕ → Bool
is_signed codec = codec / 4 % 2 == 0

abbrev pub from_size : (samples : ℕ) → AudioInfo → ℕ
from_size samples from = from.bits * samples % 2 ^ 32 / 8

abbrev pub to_divisor : AudioInfo → ℕ
to_divisor from = 8 * from.rate * from.channels % 2 ^ 32

abbrev pub to_size : (samples : ℕ) → (from to : AudioInfo) → ℕ
to_size samples from to = to.bits * samples * to.rate * to.channels % 2 ^ 32 / to_divisor from

-- `samples` after the conversion of the rate.
abbrev pub resampled : (samples : ℕ) → (from to : AudioInfo) → ℕ
resampled samples from to =
    if from.rate == to.rate then samples else samples * to.rate % 2 ^ 32 / from.rate

-- After a step: what it returned, the new `ip`, and the memory.
abbrev pub Stage : Type 0
Stage = Status × (ℕ × Block)

-- One step, where it is wanted: it reads at `ip` and leaves its output at `out`.
abbrev pub step : (wanted : Bool) (out : ℕ) → (ℕ → Block → Run (Status × Block)) → Stage → Run Stage
step wanted out f (failed, rest) = done (failed, rest)
step wanted out f (ok, (ip, mem)) =
    if wanted then (do r ← f ip mem; pure (r.0, (out, r.1))) else done (ok, (ip, mem))

abbrev pub differ : Bool → Bool → Bool
differ a b = if a then not b else b

-- The type of `roar_conv_rate`: `out`, `in`, `samples`, the two rates, `bits` and `channels`
abbrev pub RateFunc : Type 0
RateFunc = ℕ → ℕ → ℕ → ℕ → ℕ → ℕ → ℕ → Block → Run (Status × Block)

module _ (conv_rate : RateFunc) where
  -- The six steps.
  abbrev pub stages : (out in_ samples : ℕ) → (from to : AudioInfo) → Block → Run Stage
  stages out in_ samples from to mem = do
    s1 ←
        step (not (byte_order from.codec == order_native)) out
          (λ ip. conv_endian out ip samples (byte_order from.codec) order_native from.bits)
          (ok, (in_, mem))
    s2 ← step (not (from.bits == to.bits)) out (λ ip. conv_bits out ip samples from.bits to.bits) s1
    s3 ←
        step (differ (is_signed from.codec) (is_signed to.codec)) out
          (λ ip. conv_signedness out ip samples (is_signed from.codec) (is_signed to.codec) to.bits)
          s2
    s4 ←
        step (not (from.rate == to.rate)) out
          (λ ip. conv_rate out ip samples from.rate to.rate to.bits from.channels) s3
    s5 ←
        step (not (from.channels == to.channels)) out
          (λ ip. conv_chans out ip (resampled samples from to) from.channels to.channels to.bits) s4
    step (not (byte_order to.codec == order_native)) out
        (λ ip.
          conv_endian out ip (resampled samples from to) order_native (byte_order to.codec) to.bits)
        s5

  -- The copy from the memory that was allocated to `out`.
  abbrev pub copy_back : (out temp size : ℕ) → Stage → Run (Status × Block)
  copy_back out temp size (failed, (ip, mem)) = done (failed, mem)
  copy_back out temp size (ok, (ip, mem)) = returns (memcpy out temp size mem)

  -- `roar_conv`; `temp` is what `roar_mm_malloc` gives.
  unfoldable pub conv :
      (temp : Option ℕ) (out in_ samples : ℕ) → (from to : AudioInfo) → Block → Run (Status × Block)
  conv temp out in_ samples from to mem =
      if to_divisor from == 0
      then fault
      else if ltb (to_size samples from to) (from_size samples from)
      then elim temp [
        | none ↦ done (failed, mem)
        | some place ↦ do
          s ← stages place in_ samples from to mem
          copy_back out place (to_size samples from to) s
      ]
      else (do s ← stages out in_ samples from to mem; pure (s.0, s.1.1))
