-- ===== src/Meta/Finalize.antt =====
-- stream_meta_finalize of roard/meta.c: the meta data of the input streams is gathered in each
-- output stream.
pub mod Packed
pub mod Gather
pub mod Update
use Prim.Native.Nat.{bit_and}
use roaraudio.Prelude.{
  ℕ, zero, suc, ◌+◌, ◌≡◌, Bool, true, false, Option, none, some, List, [], ◌∷◌, ◌++◌, ◌==◌, ltb,
  get_elem?, if◌then◌else◌, not, ◌&&◌, ◌||◌,
}
use roaraudio.Status.{Status, ok, failed}
use roaraudio.Meta.{
  type_none, max_per_stream, streams_max, Slot, Slots, Stream, Table, Run, done, fault, ◌>>=◌,
  and_then, pure, stream_at, meta_add, meta_clear,
}

-- ROAR_FLAG_META
abbrev pub flag_meta : ℕ
flag_meta = 16

-- ROAR_DIR_PLAY, ROAR_DIR_META, ROAR_DIR_FILTER and ROAR_DIR_BIDIR
abbrev pub is_input : ℕ → Bool
is_input dir = (dir == 1) || (dir == 8) || (dir == 4) || (dir == 9)

-- ROAR_DIR_MONITOR, ROAR_DIR_FILTER, ROAR_DIR_META, ROAR_DIR_BIDIR and ROAR_DIR_OUTPUT
abbrev pub is_output : ℕ → Bool
is_output dir = (dir == 3) || (dir == 4) || (dir == 8) || (dir == 9) || (dir == 5)

abbrev pub has_meta : Stream → Bool
has_meta s = not (bit_and s.flags flag_meta == 0)

-- `streams_get_flag(id, ROAR_FLAG_META)`: -1 is `none`.
unfoldable pub get_flag_meta : ℕ → Table → Run (Option Bool)
get_flag_meta id g =
    if ltb streams_max id
    then pure none
    else (do p ← stream_at g id; elim p [ none ↦ pure none | some s ↦ pure (some (has_meta s)) ])

-- `strdup(NULL)` is an access through a NULL pointer.
abbrev pub add_copy : (memory : Bool) → ℕ → Slot → Table → Run (Status × Table)
add_copy memory co x g = elim x.value [
  | none ↦ fault
  | some v ↦ meta_add memory co x.kind (some x.key) v g
]

-- `s->meta[i]` for `s = g_streams[ci]`, read from the table as it stands.
abbrev pub slot_at : (ci i : ℕ) → Table → Run Slot
slot_at ci i g = elim (get_elem? g ci) [
  | none ↦ fault
  | some none ↦ fault
  | some (some s) ↦ elim (get_elem? s.slots i) [ none ↦ fault | some x ↦ done x ]
]

abbrev pub copy_slot : (memory : Bool) → ℕ → Slot → Table → Run Table
copy_slot memory co x g =
    if x.kind == type_none then done g else add_copy memory co x g >>= λ r. done r.1

abbrev pub copy_round : (memory : Bool) → (co ci i : ℕ) → Table → Run Table
copy_round memory co ci i g = slot_at ci i g >>= λ x. copy_slot memory co x g

-- The loop over the slots of one input stream, from number `i` on with `n` rounds left; the result of
-- `stream_meta_add` is ignored.
pub copy_slots : (memory : Bool) → (co ci i n : ℕ) → Table → Run Table
copy_slots memory co ci i zero g = done g
copy_slots memory co ci i (suc n) g =
    copy_round memory co ci i g >>= copy_slots memory co ci (i + 1) n

-- The loop over `ci`: `n` rounds from `ci` on.
unfoldable pub copy_streams : (memory : Bool) → ℕ → (n ci : ℕ) → Table → Run Table
unfolding copy_slots
copy_streams memory co zero ci g = done g
copy_streams memory co (suc n) ci g = stream_at g ci >>= λ p. elim p [
  | none ↦ copy_streams memory co n (ci + 1) g
  | some s ↦
      (if is_input s.dir && has_meta s
        then (copy_slots memory co ci 0 max_per_stream g >>= λ g'.
            copy_streams memory co n (ci + 1) g')
        else copy_streams memory co n (ci + 1) g)
]

-- The loop over `co`. `asked` lists the streams whose codec filter was told of the update, by
-- `streams_ctl`, in order.
pub update_streams : (memory : Bool) → (n co : ℕ) → Table → (asked : List ℕ) → Run (Table × List ℕ)
unfolding copy_streams
update_streams memory zero co g asked = done (g, asked)
update_streams memory (suc n) co g asked = stream_at g co >>= λ p. elim p [
  | none ↦ update_streams memory n (co + 1) g asked
  | some s ↦
      (if is_output s.dir && has_meta s
        then (meta_clear co g >>= λ r. copy_streams memory co streams_max 0 r.1 >>= λ g'.
            update_streams memory n (co + 1) g' (asked ++ (co ∷ [])))
        else update_streams memory n (co + 1) g asked)
]

-- `stream_meta_finalize`, which returns 0 always
unfoldable pub meta_finalize : (memory : Bool) → ℕ → Table → Run (Table × List ℕ)
meta_finalize memory id g = do
  flag ← get_flag_meta id g
  (if (elim flag [ none ↦ false | some b ↦ b ])
      then (do
        p ← stream_at g id
        elim p [
          | none ↦ pure (g, [])
          | some s ↦
              (if is_input s.dir then update_streams memory streams_max 0 g [] else pure (g, []))
        ])
      else pure (g, []))
