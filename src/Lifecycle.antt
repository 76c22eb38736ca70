-- ===== src/Lifecycle.antt =====
-- roard/streams.c: streams_new and streams_delete, and clients_delete of roard/clients.c, on the tables
-- of Client, with clean_quit of roard/roard.c. The two delete functions call each other, through
-- client_stream_delete, and streams_delete calls itself, through the codec filter of a parent stream
-- too: they run on fuel, whose end is a fault. What they close and free besides (buffers, drivers, the
-- mixer, names) is left out, and so are the notifications; of clean_quit all but the ends of the streams
-- and clients and `exit`, since nothing of these tables comes after them.
pub mod Open
pub mod Kept
pub mod Ends
pub mod Leave
pub mod Quit
pub mod Parent
pub mod Finish
pub mod Deletes
pub mod Newborn
mod Tests
use roaraudio.Prelude.{
  ℕ, zero, suc, ◌+◌, ◌-◌, ◌%◌, ◌^◌, Bool, true, false, Option, none, some, List, ◌++◌, [], ◌∷◌,
  ◌==◌, not, ◌||◌, ◌&&◌, if◌then◌else◌, get_elem?, set,
}
use roaraudio.Status.{Status, ok, failed}
use roaraudio.Memory.{add_size, sub_size}
use roaraudio.Meta.{Run, done, exited, fault, and_then, ◌>>=◌, pure}
use roaraudio.Client.{
  Client, Stream, Server, minus_one, streams_max, slots_max, clients_max, streams_set_client, put,
  client_at, stream_at, free_place, client_stream_delete,
}

-- ROAR_STREAMSTATE_INITING, ROAR_STREAMSTATE_CLOSING, ROAR_DIR_THRU and ROAR_DIR_RAW_IN
abbrev pub initing : ℕ
initing = 1

abbrev pub closing : ℕ
closing = 4

abbrev pub dir_thru : ℕ
dir_thru = 10

abbrev pub dir_raw_in : ℕ
dir_raw_in = 16

abbrev pub put_stream : Server → ℕ → Option Stream → Server
put_stream g id p = record g { streams = set g.streams id p }

-- What streams_new stores in its new struct.
abbrev pub new_stream : Stream
new_stream = record {
  client = minus_one;
  dir = 0;
  pos_rel_id = minus_one;
  state = initing;
  virtual = false;
  recsource = false;
  primary = false;
  filter_deletes = false;
}

-- `streams_new`; `accepts` says that the server does not terminate, or still listens.
unfoldable pub streams_new : (accepts memory : Bool) → Server → ℕ × Server
streams_new accepts memory g =
    if accepts
    then elim (free_place g.streams) [
      | none ↦ (minus_one, g)
      | some i ↦
          if memory
          then (
            i,
            record (put_stream g i (some new_stream)) {
              stream_counter = add_size g.stream_counter 1;
              stream_sum = add_size g.stream_sum 1;
            },
          )
          else (minus_one, g)
    ]
    else (minus_one, g)

-- `for (i = 0; i < n; i++)`, from some `i` on with `n` rounds left
pub each : (step : ℕ → Server → Run Server) → (i n : ℕ) → Server → Run Server
each step i zero g = done g
each step i (suc n) g = step i g >>= each step (i + 1) n

-- The first lines of streams_delete: the state, the counter and ROAR_FLAG_RECSOURCE.
abbrev pub shut_down : Server → ℕ → Stream → Server
shut_down g id s =
    record (put_stream g id (some (record s { state = closing; recsource = false }))) {
      stream_counter = sub_size g.stream_counter 1;
      recsource_id = if s.recsource && g.recsource_id == id then minus_one else g.recsource_id;
    }

-- A stream that ends with the one that it is related to.
abbrev pub is_bound : Stream → Bool
is_bound s = (s.dir == dir_thru) || ((s.dir == dir_raw_in) || s.virtual)

module _ (delete_stream : ℕ → Server → Run Server) where
  -- The loop over the streams that are related to `id`.
  abbrev pub end_related : (id i : ℕ) → Server → Run Server
  end_related id i g = elim (get_elem? g.streams i) [
    | none ↦ fault
    | some none ↦ pure g
    | some (some s) ↦
        if s.pos_rel_id == id
        then (if is_bound s
            then (if i == id then pure g else delete_stream i g)
            else pure (put_stream g i (some (record s { pos_rel_id = minus_one }))))
        else pure g
  ]

  -- The loop of clients_delete: `cs` has to be allocated still.
  abbrev pub end_owned : (id i : ℕ) → Server → Run Server
  end_owned id i g = elim (get_elem? g.clients id) [
    | none ↦ fault
    | some none ↦ fault
    | some (some c) ↦ elim (get_elem? c.streams i) [ none ↦ fault | some s ↦ delete_stream s g ]
  ]

abbrev pub one_thru_less : Stream → Server → Server
one_thru_less s g =
    if s.dir == dir_thru then record g { thru_num = (g.thru_num + 2 ^ 32 - 1) % 2 ^ 32 } else g

-- What the stream's client forgets.
abbrev pub leave_client :
    (delete_client : ℕ → Server → Run Server) → (id client : ℕ) → Server → Run Server
leave_client delete_client id client g =
    if client == minus_one
    then pure g
    else (do r ← client_stream_delete delete_client client id g; pure r.1)

-- `streams_ctl` of ROAR_CODECFILTER_CTL_VIRTUAL_DELETE, whose result is ignored: cf_au_ctl and
-- cf_wave_ctl delete their stream, the other codec filters leave the tables as they are.
abbrev pub virtual_delete :
    (delete_stream : ℕ → Server → Run Server) → (parent : ℕ) → Server → Run Server
virtual_delete delete_stream parent g = do
  p ← stream_at g parent
  elim p [ none ↦ pure g | some t ↦ if t.filter_deletes then delete_stream parent g else pure g ]

-- A virtual stream that tells its parent: it has no parent and no client meanwhile.
abbrev pub ungroup : (id : ℕ) → Stream → Server → Run Server
ungroup id s g = do
  r ← streams_set_client id minus_one (put_stream g id (some (record s { pos_rel_id = minus_one })))
  pure r.1

abbrev pub set_parent : (id parent : ℕ) → Server → Run Server
set_parent id parent g = elim (get_elem? g.streams id) [
  | none ↦ fault
  | some none ↦ fault
  | some (some s) ↦ pure (put_stream g id (some (record s { pos_rel_id = parent })))
]

abbrev pub regroup : (id : ℕ) → Stream → Server → Run Server
regroup id s g = do r ← streams_set_client id s.client g; set_parent id s.pos_rel_id r.1

abbrev pub tell_parent :
    (delete_stream : ℕ → Server → Run Server) → (id : ℕ) → Stream → Server → Run Server
tell_parent delete_stream id s g =
    if s.virtual && not (s.pos_rel_id == minus_one)
    then (ungroup id s g >>= virtual_delete delete_stream s.pos_rel_id) >>= regroup id s
    else pure g

-- One round of streams_free, and of clients_free.
abbrev pub end_one_stream :
    (delete_stream : ℕ → Server → Run Server) → (i : ℕ) → Server → Run Server
end_one_stream delete_stream i g = elim (get_elem? g.streams i) [
  | none ↦ fault
  | some none ↦ pure g
  | some (some s) ↦ delete_stream i g
]

abbrev pub end_one_client :
    (delete_client : ℕ → Server → Run Server) → (i : ℕ) → Server → Run Server
end_one_client delete_client i g = elim (get_elem? g.clients i) [
  | none ↦ fault
  | some none ↦ pure g
  | some (some c) ↦ delete_client i g
]

module _ (delete_stream delete_client : ℕ → Server → Run Server) where
  -- `clean_quit`: streams_free, clients_free, and `exit`.
  abbrev pub clean_quit : Server → Run Server
  unfolding each
  clean_quit g =
      (each (end_one_stream delete_stream) 0 streams_max g
        >>= each (end_one_client delete_client) 0 clients_max)
      >>= λ g2. exited

  -- The end of streams_delete: the struct is freed, and a primary stream ends the server.
  abbrev pub free_stream : (id : ℕ) → Server → Run Server
  unfolding clean_quit
  free_stream id g = elim (get_elem? g.streams id) [
    | none ↦ fault
    | some none ↦ fault
    | some (some s) ↦
        let g2 = put_stream g id none in
        if s.primary && g2.alive then clean_quit (record g2 { alive = false }) else pure g2
  ]

  -- The part behind the note to the parent; the struct has to be allocated still.
  abbrev pub finish_stream : (id : ℕ) → Server → Run Server
  unfolding free_stream
  finish_stream id g = elim (get_elem? g.streams id) [
    | none ↦ fault
    | some none ↦ fault
    | some (some s) ↦ leave_client delete_client id s.client g >>= free_stream id
  ]

  -- The part behind the loop.
  abbrev pub part_stream : (id : ℕ) → Server → Run Server
  unfolding finish_stream
  part_stream id g = elim (get_elem? g.streams id) [
    | none ↦ fault
    | some none ↦ fault
    | some (some s) ↦ tell_parent delete_stream id s (one_thru_less s g) >>= finish_stream id
  ]

  -- What streams_delete does with a stream that is not closing.
  abbrev pub end_stream : (id : ℕ) → Stream → Server → Run Server
  unfolding part_stream each
  end_stream id s g =
      each (end_related delete_stream id) 0 streams_max (shut_down g id s) >>= part_stream id

-- The end of clients_delete: the struct is freed. `c` is the client as it was.
abbrev pub close_client : (id : ℕ) → Client → Server → Run Server
close_client id c g = elim (get_elem? g.clients id) [
  | none ↦ fault
  | some none ↦ fault
  | some (some c') ↦ pure (record g {
    clients = set g.clients id none;
    closed =
        if not (c'.fh == minus_one) && (c.execed == minus_one)
        then g.closed ++ (c'.fh ∷ [])
        else g.closed;
  })
]

-- clients_delete up to its loop.
abbrev pub shut_client : Server → ℕ → Client → Server
shut_client g id c = record (put g id (record c { waits = none; execed = minus_one })) {
  counter = sub_size g.counter 1;
}

-- What clients_delete does with a client that is there.
abbrev pub end_client :
    (delete_stream : ℕ → Server → Run Server) (id : ℕ) → Client → Server → Run Server
unfolding each
end_client delete_stream id c g =
    each (end_owned delete_stream id) 0 slots_max (shut_client g id c) >>= close_client id c

unfoldable mutual
  -- `streams_delete`
  pub streams_delete : (fuel id : ℕ) → Server → Run Server
  streams_delete zero id g = fault
  streams_delete (suc fuel) id g = do
    p ← stream_at g id
    elim p [
      | none ↦ pure g
      | some s ↦
          if s.state == closing
          then pure g
          else end_stream (streams_delete fuel) (clients_delete fuel) id s g
    ]

  -- `clients_delete`
  pub clients_delete : (fuel id : ℕ) → Server → Run Server
  clients_delete zero id g = fault
  clients_delete (suc fuel) id g = do
    p ← client_at g id
    elim p [ none ↦ pure g | some c ↦ end_client (streams_delete fuel) id c g ]
