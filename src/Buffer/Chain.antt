-- ===== src/Buffer/Chain.antt =====
-- libroar/buffer.c: buffers linked through `next`, on an explicit heap. roar_buffer_add,
-- roar_buffer_delete, roar_buffer_free, roar_buffer_shift_out and roar_buffer_ring_stats.
-- Each loop runs on fuel; the theorems say how much is enough.
pub mod Shape
pub mod Shift
pub mod Grow
pub mod Sums
pub mod Tests
use Prim.Native.Nat.{bit_and}
use roaraudio.Prelude.{
  ℕ, zero, suc, ◌+◌, ◌-◌, ◌≡◌, Bool, true, false, Option, none, some, List, [], ◌∷◌, ◌++◌, ◌==◌,
  ltb, if◌then◌else◌, not,
}
use roaraudio.Status.{Status, ok, failed}
use roaraudio.Memory.{slice}
use roaraudio.Buffer.{Buffer, Ptr, flag_ring, flag_nofree, set_offset}

-- The structs at their addresses, and the addresses of the structs whose `data` was given to
-- `roar_mm_free`, the last one first.
pub record Heap : Type 0 where
  pub cell : ℕ → Option Buffer
  pub freed : List ℕ

abbrev pub update : (ℕ → Option Buffer) → ℕ → Option Buffer → ℕ → Option Buffer
update cell a b i = if i == a then b else cell i

-- `fault` is an access through a pointer to no struct.
pub data Run (A : Type 0) : Type 0 where
  done : A → Heap → Run A
  fault : Run A
  no_fuel : Run A

abbrev pub Cmd : Type 0 → Type 0
Cmd A = Heap → Run A

abbrev pub and_then : {A B : Type 0} → Run A → (A → Cmd B) → Run B
and_then (done a h) f = f a h
and_then fault f = fault
and_then no_fuel f = no_fuel

infixl 5 ◌>>=◌ ◌>>◌
abbrev pub ◌>>=◌ : {A B : Type 0} → Cmd A → (A → Cmd B) → Cmd B
◌>>=◌ m f h = and_then (m h) f

abbrev pub ◌>>◌ : {B : Type 0} → Cmd (Unit {0}) → Cmd B → Cmd B
m >> k = m >>= λ _. k

abbrev pub pure : {A : Type 0} → A → Cmd A
pure a h = done a h

unfoldable pub load : ℕ → Cmd Buffer
load a h = elim (h.cell a) [ none ↦ fault | some b ↦ done b h ]

unfoldable pub store : ℕ → Buffer → Cmd (Unit {0})
store a b h = elim (h.cell a) [
  | none ↦ fault
  | some old ↦ done tt (record h { cell = update h.cell a (some b) })
]

-- `if ( roar_buffer_get_flag(buf, ROAR_BUFFER_FLAG_NOFREE) != 1 ) roar_mm_free(buf->data);`
-- and `roar_mm_free(buf);`
unfoldable pub release : ℕ → Buffer → Cmd (Unit {0})
release a b h = done tt (record {
  cell = update h.cell a none;
  freed = if bit_and b.flags flag_nofree == 1 then h.freed else a ∷ h.freed;
})

-- `roar_buffer_delete`, with what it stores at `*next`
unfoldable pub delete : Ptr → Cmd (Status × Ptr)
delete none = pure (failed, none)
delete (some a) = do b ← load a; release a b; pure (ok, b.next)

free_loop : ℕ → Ptr → Cmd Status
free_loop zero p h = no_fuel
free_loop (suc k) none h = done ok h
free_loop (suc k) (some a) h = (load a >>= λ b. release a b >> free_loop k b.next) h

-- `roar_buffer_free`: the loop stops at the struct whose `next` is NULL, which is then released
-- like the others.
unfoldable pub free : ℕ → Ptr → Cmd Status
unfolding free_loop
free fuel none = pure failed
free fuel (some a) = free_loop fuel (some a)

-- The walk of roar_buffer_add to the last struct, and the write that follows it. A `next` that is
-- met on the way is only reported.
link : ℕ → ℕ → Ptr → Cmd Status
link zero a next h = no_fuel
link (suc k) a next h =
    (load a >>= λ b. elim b.next [
      | none ↦ store a (record b { next = next }) >> pure ok
      | some c ↦ link k c next
    ])
      h

abbrev pub points_to : Ptr → ℕ → Bool
points_to none a = false
points_to (some b) a = a == b

-- `roar_buffer_add`
unfoldable pub add : ℕ → Ptr → Ptr → Cmd Status
unfolding link
add fuel none next = pure failed
add fuel (some a) next = do
  b ← load a
  (if not (bit_and b.flags flag_ring == 0)
      then pure failed
      else if points_to next a
      then pure failed
      else link fuel a next)

-- What roar_buffer_shift_out leaves: the bytes that it stored at `data`, whose number is `*len`,
-- and `*buf`.
pub record Shifted : Type 0 where
  pub out : List ℕ
  pub buf : Ptr

-- One round of the loop of roar_buffer_shift_out at the struct `a`: the bytes copied, what is left
-- to do, and the next struct to look at. The last `set_offset` cannot fail.
unfoldable pub shift_step : ℕ → ℕ → Cmd (List ℕ × ℕ × Ptr)
shift_step todo a = do
  b ← load a
  (if ltb todo b.user_len
      then (do
        store a (elim (set_offset (some b) todo).1 [ none ↦ b | some c ↦ c ])
        pure (slice b.block b.user_off todo, 0, some a))
      else (do
        (status, next) ← delete (some a)
        pure (slice b.block b.user_off b.user_len, todo - b.user_len, next)))

shift_loop : ℕ → ℕ → Ptr → List ℕ → Cmd Shifted
unfolding shift_step
shift_loop zero todo cur out h = no_fuel
shift_loop (suc k) zero cur out h = done (record { out = out; buf = cur }) h
shift_loop (suc k) (suc todo) none out h = done (record { out = out; buf = none }) h
shift_loop (suc k) (suc todo) (some a) out h =
    (shift_step (suc todo) a >>= λ r. shift_loop k r.1 r.2 (out ++ r.0)) h

-- `roar_buffer_shift_out` for pointers `buf`, `data` and `len` that are not NULL; `none` is -1.
unfoldable pub shift_out : ℕ → Ptr → ℕ → Cmd (Option Shifted)
unfolding shift_loop
shift_out fuel none len = pure none
shift_out fuel (some a) len = do s ← shift_loop fuel len (some a) []; pure (some s)

-- `struct roar_buffer_stats`
pub record Stats : Type 0 where
  pub parts : ℕ
  pub bytes : ℕ
  pub memory_usage : ℕ

stats_loop : (struct_size fuel : ℕ) → Ptr → Stats → Cmd Stats
stats_loop struct_size zero p st h = no_fuel
stats_loop struct_size (suc k) none st h = done st h
stats_loop struct_size (suc k) (some a) st h =
    (load a >>= λ b. stats_loop struct_size k b.next (record {
      parts = st.parts + 1;
      bytes = st.bytes + b.user_len;
      memory_usage = st.memory_usage + (b.len + struct_size);
    }))
      h

-- `roar_buffer_ring_stats`: its sums are taken not to pass an `int`; `struct_size` is
-- `sizeof(struct roar_buffer)`, and `none` is -1.
unfoldable pub ring_stats : (struct_size fuel : ℕ) → Ptr → Cmd (Option Stats)
unfolding stats_loop
ring_stats struct_size fuel none = pure none
ring_stats struct_size fuel (some a) = do
  st ← stats_loop struct_size fuel (some a) (record { parts = 0; bytes = 0; memory_usage = 0 })
  pure (some st)
