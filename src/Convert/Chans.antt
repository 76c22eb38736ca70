-- ===== src/Convert/Chans.antt =====
-- libroardsp/convert.c: roar_conv_chans and the functions that it calls. `samples` counts the samples
-- of all channels of the input. An `int` sum wraps around.
pub mod Back
use roaraudio.Prelude.{
  ℕ, zero, suc, ◌+◌, ◌-◌, ◌*◌, ◌/◌, ◌%◌, ◌^◌, Bool, true, false, List, [], ◌∷◌, ◌++◌, ◌==◌,
  if◌then◌else◌, take, drop,
}
use roaraudio.Prelude.Int.{ℤ, pos, negsuc, ◌+ℤ◌, sub_ℕ}
use roaraudio.Status.{Status, ok, failed}
use roaraudio.Meta.{Run, done, fault, and_then, ◌>>=◌, pure}
use roaraudio.Pcm.{wrap}
use roaraudio.Convert.{Block, load, store, number, bytes_of, down, up, move}
use roaraudio.Convert.Bits.{memcpy, returns}

-- A sample of `size` bytes as a number, and the bytes that are stored of an `int`.
abbrev pub signed : (size : ℕ) → List ℕ → ℤ
signed size bytes = wrap (256 ^ size) (pos (number bytes))

abbrev pub stored : (size : ℕ) → ℤ → List ℕ
stored size (pos n) = bytes_of size n
stored size (negsuc n) = bytes_of size (2 ^ 32 - 1 - n)

-- `s += ip[i*from + c]` for the next `count` samples
pub sum_samples : (size : ℕ) → ℤ → (count : ℕ) → List ℕ → ℤ
sum_samples size s zero bytes = s
sum_samples size s (suc count) bytes =
    sum_samples size (wrap (2 ^ 32) (s +ℤ signed size (take size bytes))) count (drop size bytes)

-- `s / d`, which rounds to 0
abbrev pub divide : ℤ → (d : ℕ) → ℤ
divide (pos n) d = pos (n / d)
divide (negsuc n) d = sub_ℕ 0 (suc n / d)

-- the mean of `count` samples
unfoldable pub mean : (size count : ℕ) → List ℕ → List ℕ
unfolding sum_samples
mean size count bytes = stored size (divide (sum_samples size (pos 0) count bytes) count)

-- `op[to] = ip[from]`
abbrev pub move_one : (size from to : ℕ) → Block → Run Block
move_one size from to = move (λ bytes. bytes) from size to

-- `roar_conv_chans_1ton8`, `_1ton16` and `_1ton32`
unfoldable pub chans_1ton : (size out in_ samples to : ℕ) → Block → Run Block
unfolding down
chans_1ton size out in_ samples to =
    down (λ i. down (λ c. move_one size (in_ + i * size) (out + (i * to + c) * size)) to) samples

-- `roar_conv_chans_1to28` and `_1to216`
unfoldable pub chans_1to2 : (size out in_ samples : ℕ) → Block → Run Block
unfolding down
chans_1to2 size out in_ samples =
    down
      (λ h mem. do
        mem1 ← move_one size (in_ + h * size) (out + h * 2 * size) mem
        move_one size (in_ + h * size) (out + (h * 2 + 1) * size) mem1)
      samples

-- `roar_conv_chans_nto18`, `_nto116` and `_nto132`: no channels are a division by 0.
unfoldable pub chans_nto1 : (size out in_ samples from : ℕ) → Block → Run Block
unfolding up mean
chans_nto1 size out in_ samples zero mem = fault
chans_nto1 size out in_ samples (suc n) mem =
    up (λ i. move (mean size (suc n)) (in_ + i * (suc n * size)) (suc n * size) (out + i * size)) 0
      (samples / suc n) mem

-- `roar_conv_chans_2to18` and `_2to116`
unfoldable pub chans_2to1 : (size out in_ samples : ℕ) → Block → Run Block
unfolding up mean
chans_2to1 size out in_ samples =
    up (λ h. move (mean size 2) (in_ + h * (2 * size)) (2 * size) (out + h * size)) 0
      ((samples + 1) / 2)

-- `ip` and `op` of the frame `h`, whose first sample is `i`: the loops of the next functions begin with
-- the last two samples.
abbrev pub first_of : (in_ samples h : ℕ) → ℕ
first_of in_ samples h = in_ + (h * 2 + samples % 2) * 2

-- `roar_conv_chans_2to316`
unfoldable pub chans_2to3 : (out in_ samples : ℕ) → Block → Run Block
unfolding down mean
chans_2to3 out in_ samples =
    down
      (λ h mem. do
        let ip = first_of in_ samples h
        let op = out + h * 3 * 2
        mem1 ← move_one 2 ip op mem
        mem2 ← move_one 2 (ip + 2) (op + 2) mem1
        move (mean 2 2) ip 4 (op + 4) mem2)
      (samples / 2)

-- `roar_conv_chans_2to416`
unfoldable pub chans_2to4 : (out in_ samples : ℕ) → Block → Run Block
unfolding down
chans_2to4 out in_ samples =
    down
      (λ h mem. do
        let ip = first_of in_ samples h
        let op = out + h * 4 * 2
        mem1 ← move_one 2 ip op mem
        mem2 ← move_one 2 (ip + 2) (op + 2) mem1
        mem3 ← move_one 2 ip (op + 4) mem2
        move_one 2 (ip + 2) (op + 6) mem3)
      (samples / 2)

-- `roar_conv_chans_2to516`
unfoldable pub chans_2to5 : (out in_ samples : ℕ) → Block → Run Block
unfolding down mean
chans_2to5 out in_ samples =
    down
      (λ h mem. do
        let ip = first_of in_ samples h
        let op = out + h * 5 * 2
        mem1 ← move_one 2 ip op mem
        mem2 ← move_one 2 (ip + 2) (op + 2) mem1
        mem3 ← move (mean 2 2) ip 4 (op + 4) mem2
        mem4 ← move_one 2 ip (op + 6) mem3
        move_one 2 (ip + 2) (op + 8) mem4)
      (samples / 2)

-- `roar_conv_chans_2to616`
unfoldable pub chans_2to6 : (out in_ samples : ℕ) → Block → Run Block
unfolding down mean
chans_2to6 out in_ samples =
    down
      (λ h mem. do
        let ip = first_of in_ samples h
        let op = out + h * 6 * 2
        mem1 ← move_one 2 ip op mem
        mem2 ← move_one 2 (ip + 2) (op + 2) mem1
        mem3 ← move (mean 2 2) ip 4 (op + 4) mem2
        mem4 ← move_one 2 (op + 4) (op + 6) mem3
        mem5 ← move_one 2 ip (op + 8) mem4
        move_one 2 (ip + 2) (op + 10) mem5)
      (samples / 2)

-- The mean of the first and the third of three samples of 16 bits.
unfoldable pub mean_apart : List ℕ → List ℕ
unfolding mean
mean_apart bytes = mean 2 2 (take 2 bytes ++ drop 4 bytes)

-- `roar_conv_chans_4to216`: `samples -= 4` comes before a loop that ends in front of `samples`.
unfoldable pub chans_4to2 : (out in_ samples : ℕ) → Block → Run Block
unfolding up mean_apart
chans_4to2 out in_ samples =
    up
      (λ h mem. do
        mem1 ← move mean_apart (in_ + h * 8) 6 (out + h * 4) mem
        move mean_apart (in_ + h * 8 + 2) 6 (out + h * 4 + 2) mem1)
      0 ((samples - 4 + 3) / 4)

-- The three sizes of roar_conv_chans.
abbrev pub chans_8 : (out in_ samples from to : ℕ) → Block → Run (Status × Block)
chans_8 out in_ samples from to mem =
    if from == 1
    then (if to == 2
        then returns (chans_1to2 1 out in_ samples mem)
        else returns (chans_1ton 1 out in_ samples to mem))
    else if to == 1
    then (if from == 2
        then returns (chans_2to1 1 out in_ samples mem)
        else returns (chans_nto1 1 out in_ samples from mem))
    else done (failed, mem)

abbrev pub chans_16 : (out in_ samples from to : ℕ) → Block → Run (Status × Block)
chans_16 out in_ samples from to mem =
    if from == 1
    then (if to == 2
        then returns (chans_1to2 2 out in_ samples mem)
        else returns (chans_1ton 2 out in_ samples to mem))
    else if to == 1
    then (if from == 2
        then returns (chans_2to1 2 out in_ samples mem)
        else returns (chans_nto1 2 out in_ samples from mem))
    else if from == 2
    then (if to == 3
        then returns (chans_2to3 out in_ samples mem)
        else if to == 4
        then returns (chans_2to4 out in_ samples mem)
        else if to == 5
        then returns (chans_2to5 out in_ samples mem)
        else if to == 6
        then returns (chans_2to6 out in_ samples mem)
        else done (failed, mem))
    else if from == 4
    then (if to == 2 then returns (chans_4to2 out in_ samples mem) else done (failed, mem))
    else done (failed, mem)

abbrev pub chans_32 : (out in_ samples from to : ℕ) → Block → Run (Status × Block)
chans_32 out in_ samples from to mem =
    if from == 1
    then returns (chans_1ton 4 out in_ samples to mem)
    else if to == 1
    then returns (chans_nto1 4 out in_ samples from mem)
    else done (failed, mem)

-- `roar_conv_chans`
unfoldable pub conv_chans : (out in_ samples from to bits : ℕ) → Block → Run (Status × Block)
conv_chans out in_ samples from to bits mem =
    if from == to
    then (if in_ == out
        then done (ok, mem)
        else returns (memcpy out in_ (samples * from * bits / 8) mem))
    else if bits == 8
    then chans_8 out in_ samples from to mem
    else if bits == 16
    then chans_16 out in_ samples from to mem
    else if bits == 32
    then chans_32 out in_ samples from to mem
    else done (failed, mem)
