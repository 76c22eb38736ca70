-- ===== src/Client.antt =====
-- roard/clients.c: the table of the server's clients and the streams that each of them owns, with
-- streams_set_client and streams_get_client (roard/streams.c). An `int` is its 32-bit pattern, so
-- an `id` below 0 is above ROAR_CLIENTS_MAX.
pub mod Slots
pub mod Owned
pub mod Move
pub mod Transfer
pub mod Handles
pub mod Tests
use roaraudio.Prelude.{
  ℕ, ◌+◌, ◌-◌, ◌^◌, Bool, true, false, Option, none, some, List, [], ◌∷◌, ◌++◌, ◌==◌, ltb, not,
  ◌||◌, if◌then◌else◌, get_elem?, set, replicate,
}
use roaraudio.Status.{Status, ok, failed}
use roaraudio.Meta.{Run, done, fault, and_then, ◌>>=◌, pure}
use roaraudio.Memory.{add_size, sub_size}
use roaraudio.Nnode

abbrev pub minus_one : ℕ
minus_one = 2 ^ 32 - 1

-- ROAR_CLIENTS_MAX, ROAR_STREAMS_MAX and ROAR_CLIENTS_MAX_STREAMS_PER_CLIENT
abbrev pub clients_max : ℕ
clients_max = 64

abbrev pub streams_max : ℕ
streams_max = 64

abbrev pub slots_max : ℕ
slots_max = 12

-- `struct roar_client_server` with its `struct roar_client`; `waits` is the subscriptions that the
-- client waits for. `acl` is NULL throughout.
pub record Client : Type 0 where
  pub fh : ℕ
  pub name : List ℕ
  pub pid : ℕ
  pub uid : ℕ
  pub gid : ℕ
  pub host : List ℕ
  pub execed : ℕ
  pub streams : List ℕ
  pub proto : ℕ
  pub byteorder : ℕ
  pub nnode : Nnode.Nnode
  pub blockc : ℕ
  pub waits : Option (List ℕ)
  pub acclev : ℕ

-- What these functions use of `struct roar_stream_server`; of the flags, ROAR_FLAG_VIRTUAL and
-- ROAR_FLAG_RECSOURCE. `filter_deletes` says that its codec filter has cf_au_ctl or cf_wave_ctl, which
-- answer ROAR_CODECFILTER_CTL_VIRTUAL_DELETE by streams_delete of the stream.
pub record Stream : Type 0 where
  pub client : ℕ
  pub dir : ℕ
  pub pos_rel_id : ℕ
  pub state : ℕ
  pub virtual : Bool
  pub recsource : Bool
  pub primary : Bool
  pub filter_deletes : Bool

-- `g_clients` and `g_streams`, the counters of clients, the handles that were closed, and the
-- clients that were announced as new; the counters of streams, `streams_recsource_id`,
-- `streams_thru_num`, and `alive`, which clean_quit ends.
pub record Server : Type 0 where
  pub clients : List (Option Client)
  pub streams : List (Option Stream)
  pub counter : ℕ
  pub sum : ℕ
  pub closed : List ℕ
  pub announced : List ℕ
  pub stream_counter : ℕ
  pub stream_sum : ℕ
  pub recsource_id : ℕ
  pub thru_num : ℕ
  pub alive : Bool

abbrev pub put : Server → ℕ → Client → Server
put g id c = record g { clients = set g.clients id (some c) }

-- `_CHECK_CID` and `g_clients[id]`: `none` where the function returns -1.
unfoldable pub client_at : Server → ℕ → Run (Option Client)
client_at g id =
    if ltb clients_max id
    then done none
    else elim (get_elem? g.clients id) [ none ↦ fault | some p ↦ done p ]

-- The same for `g_streams`, with `_CHECK_SID`.
unfoldable pub stream_at : Server → ℕ → Run (Option Stream)
stream_at g id =
    if ltb streams_max id
    then done none
    else elim (get_elem? g.streams id) [ none ↦ fault | some p ↦ done p ]

-- The index of the first NULL.
unfoldable pub free_place {ℓ} : {A : Type ℓ} → List (Option A) → Option ℕ
free_place [] = none
free_place (none ∷ ps) = some 0
free_place (some p ∷ ps) = elim (free_place ps) [ none ↦ none | some i ↦ some (i + 1) ]

-- What clients_new stores in its new struct: ROAR_PROTO_ROARAUDIO, ROAR_BYTEORDER_NETWORK and
-- ACCLEV_NONE are 1, 2 and 0.
abbrev pub new_client : Client
new_client = record {
  fh = minus_one;
  name = [];
  pid = minus_one;
  uid = minus_one;
  gid = minus_one;
  host = [];
  execed = minus_one;
  streams = replicate slots_max minus_one;
  proto = 1;
  byteorder = 2;
  nnode = Nnode.new 0;
  blockc = 0;
  waits = none;
  acclev = 0;
}

-- `clients_new`: without memory the `memset` of the struct is an access through NULL.
unfoldable pub clients_new : (memory : Bool) → Server → Run (ℕ × Server)
unfolding free_place
clients_new memory g = elim (free_place g.clients) [
  | none ↦ done (minus_one, g)
  | some i ↦
      if memory
      then done (
        i,
        record (put g i new_client) {
          counter = add_size g.counter 1;
          sum = add_size g.sum 1;
          announced = g.announced ++ (i ∷ []);
        },
      )
      else fault
]

-- A function that changes one client: `_CHECK_CID`, the change, and 0.
abbrev pub change : (Client → Client) → ℕ → Server → Run (Status × Server)
change f id g = do
  p ← client_at g id
  elim p [ none ↦ pure (failed, g) | some c ↦ pure (ok, put g id (f c)) ]

-- `clients_set_pid`, `clients_set_uid` and `clients_set_gid`
unfoldable pub set_pid : ℕ → ℕ → Server → Run (Status × Server)
set_pid id pid g = change (λ c. record c { pid = pid }) id g

unfoldable pub set_uid : ℕ → ℕ → Server → Run (Status × Server)
set_uid id uid g = change (λ c. record c { uid = uid }) id g

unfoldable pub set_gid : ℕ → ℕ → Server → Run (Status × Server)
set_gid id gid g = change (λ c. record c { gid = gid }) id g

-- `clients_set_fh`; `cred` is what SO_PEERCRED gives, the process, its user and its group.
abbrev pub identified : Option (ℕ × ℕ × ℕ) → Client → Client
identified none c = c
identified (some (pid, uid, gid)) c =
    if pid == 0 then c else record c { pid = pid; uid = uid; gid = gid }

unfoldable pub set_fh : Option (ℕ × ℕ × ℕ) → ℕ → ℕ → Server → Run (Status × Server)
set_fh cred id fh g = change (λ c. identified cred (record c { fh = fh })) id g

-- `clients_set_proto`: the four protocols with network byte order are ROAR_PROTO_ROARAUDIO,
-- _ESOUND, _RPLAY and _SIMPLE.
abbrev pub byteorder_of : ℕ → ℕ
byteorder_of proto =
    if (proto == 1) || ((proto == 2) || ((proto == 10) || (proto == 8))) then 2 else 0

unfoldable pub set_proto : ℕ → ℕ → Server → Run (Status × Server)
set_proto id proto g = change (λ c. record c { proto = proto; byteorder = byteorder_of proto }) id g

-- `clients_block`
unfoldable pub block : ℕ → (unblock : Bool) → Server → Run (Status × Server)
block id unblock g =
    change (λ c. record c { blockc = if unblock then sub_size c.blockc 1 else add_size c.blockc 1 })
      id g

-- `clients_get_fh`
unfoldable pub get_fh : ℕ → Server → Run ℕ
get_fh id g = do p ← client_at g id; elim p [ none ↦ pure minus_one | some c ↦ pure c.fh ]

-- `clients_close`
unfoldable pub close : ℕ → (nocheck_exec : Bool) → Server → Run (Status × Server)
close id nocheck_exec g = do
  p ← client_at g id
  elim p [
    | none ↦ pure (failed, g)
    | some c ↦
        if c.fh == minus_one
        then pure (ok, g)
        else if nocheck_exec || not (c.execed == minus_one)
        then pure (
          ok,
          record (put g id (record c { fh = minus_one })) { closed = g.closed ++ (c.fh ∷ []) },
        )
        else pure (ok, g)
  ]

-- `streams_set_client`
unfoldable pub streams_set_client : (id client : ℕ) → Server → Run (Status × Server)
streams_set_client id client g = do
  p ← stream_at g id
  elim p [
    | none ↦ pure (failed, g)
    | some s ↦
        pure (ok, record g { streams = set g.streams id (some (record s { client = client })) })
  ]

-- `streams_get_client`
unfoldable pub streams_get_client : (id : ℕ) → Server → Run ℕ
streams_get_client id g = do
  p ← stream_at g id
  elim p [ none ↦ pure minus_one | some s ↦ pure s.client ]

-- The loops of client_stream_add and client_stream_delete: the first slot that holds `old` holds
-- `new` after it. `none` is a loop that finds no such slot.
unfoldable pub replace_first : (old new : ℕ) → List ℕ → Option (List ℕ)
replace_first old new [] = none
replace_first old new (s ∷ ss) =
    let rest = replace_first old new ss in
    if s == old then some (new ∷ ss) else elim rest [ none ↦ none | some ts ↦ some (s ∷ ts) ]

-- `client_stream_add`
unfoldable pub client_stream_add : (client stream : ℕ) → Server → Run (Status × Server)
unfolding replace_first streams_set_client
client_stream_add client stream g = do
  p ← client_at g client
  elim p [
    | none ↦ pure (failed, g)
    | some c ↦ elim (replace_first minus_one stream c.streams) [
      | none ↦ pure (failed, g)
      | some slots ↦ do
        r ← streams_set_client stream client (put g client (record c { streams = slots }))
        pure (ok, r.1)
    ]
  ]

-- `clients_delete` closes a client and deletes its streams, which has client_stream_delete called
-- for each of them in turn.
module _ (clients_delete : ℕ → Server → Run Server) where
  -- `client_stream_delete`
  unfoldable pub client_stream_delete : (client stream : ℕ) → Server → Run (Status × Server)
  unfolding replace_first
  client_stream_delete client stream g = do
    p ← client_at g client
    elim p [
      | none ↦ pure (failed, g)
      | some c ↦ elim (replace_first stream minus_one c.streams) [
        | none ↦ pure (failed, g)
        | some slots ↦
            let g' = put g client (record c { streams = slots }) in
            if stream == c.execed
            then (do g'' ← clients_delete client g'; pure (ok, g''))
            else pure (ok, g')
      ]
    ]

  -- `client_stream_move`
  unfoldable pub client_stream_move : (client stream : ℕ) → Server → Run (Status × Server)
  unfolding client_stream_delete streams_get_client client_stream_add
  client_stream_move client stream g = do
    old ← streams_get_client stream g
    r ← (if old == minus_one then pure (ok, g) else client_stream_delete old stream g)
    elim r.0 [ failed ↦ pure (failed, r.1) | ok ↦ client_stream_add client stream r.1 ]
