-- ===== src/Command.antt =====
-- roard/commands.c: the table of commands and the way from a message to a handler; and the names of
-- the access levels (roard/clients.c). A handler is a function of roard/req.c, or clients_delete.
pub mod Access
pub mod Newcomer
mod Tests
use roaraudio.Prelude.{
  ℕ, ◌+◌, ◌-◌, ◌^◌, Bool, true, false, Option, none, some, List, [], ◌∷◌, ◌==◌, ltb, if◌then◌else◌,
  get_elem?,
}
use roaraudio.Meta.{Run, done, fault, and_then, ◌>>=◌, pure}
use roaraudio.Text.{Chars, codes, same_letters}
use roaraudio.Text.Table.{Names, name_of, number_of}
use roaraudio.Client.{Client, Server}

-- The handlers that the table names.
pub data Handler : Type 0 where
  on_noop on_identify on_auth on_whoami on_new_stream on_set_meta on_get_meta on_list_meta : Handler
  on_exec_stream clients_delete on_con_stream on_passfh on_server_info on_server_oinfo : Handler
  on_caps on_get_standby on_set_standby on_exit on_list_clients on_list_streams : Handler
  on_get_client on_get_stream on_kick on_attach on_set_vol on_get_vol on_get_stream_para : Handler
  on_set_stream_para on_add_data on_beep on_wait : Handler

-- `enum roard_client_acclev`
abbrev pub lev_none : ℕ
lev_none = 0

abbrev pub lev_idented : ℕ
lev_idented = 1

abbrev pub lev_conctl : ℕ
lev_conctl = 2

abbrev pub lev_guest : ℕ
lev_guest = 3

abbrev pub lev_user : ℕ
lev_user = 4

abbrev pub lev_pwruser : ℕ
lev_pwruser = 5

abbrev pub lev_all : ℕ
lev_all = 6

-- `struct roar_command`
pub record Entry : Type 0 where
  pub cmd : ℕ
  pub name : Chars
  pub handler : Option Handler
  pub minacclev : ℕ

abbrev entry : ℕ → Chars → Handler → ℕ → Entry
entry cmd name handler level = record {
  cmd = cmd;
  name = name;
  handler = some handler;
  minacclev = level;
}

-- ROAR_CMD_EOL
abbrev pub cmd_eol : ℕ
cmd_eol = 2 ^ 32 - 1

-- `g_commands`, with ROAR_SUPPORT_META
abbrev pub commands : List Entry
commands =
    entry 0 (codes "NOOP") on_noop lev_none
    ∷ entry 1 (codes "IDENTIFY") on_identify lev_none
    ∷ entry 2 (codes "AUTH") on_auth lev_idented
    ∷ entry 32 (codes "WHOAMI") on_whoami lev_none
    ∷ entry 3 (codes "NEW_STREAM") on_new_stream lev_user
    ∷ entry 4 (codes "SET_META") on_set_meta lev_pwruser
    ∷ entry 22 (codes "GET_META") on_get_meta lev_guest
    ∷ entry 23 (codes "LIST_META") on_list_meta lev_guest
    ∷ entry 5 (codes "EXEC_STREAM") on_exec_stream lev_pwruser
    ∷ entry 6 (codes "QUIT") clients_delete lev_none
    ∷ entry 21 (codes "CON_STREAM") on_con_stream lev_pwruser
    ∷ entry 30 (codes "PASSFH") on_passfh lev_pwruser
    ∷ entry 9 (codes "SERVER_INFO") on_server_info lev_idented
    ∷ entry 11 (codes "SERVER_OINFO") on_server_oinfo lev_idented
    ∷ entry 34 (codes "CAPS") on_caps lev_idented
    ∷ entry 7 (codes "GET_STANDBY") on_get_standby lev_guest
    ∷ entry 8 (codes "SET_STANDBY") on_set_standby lev_pwruser
    ∷ entry 13 (codes "EXIT") on_exit lev_all
    ∷ entry 15 (codes "LIST_CLIENTS") on_list_clients lev_guest
    ∷ entry 14 (codes "LIST_STREAMS") on_list_streams lev_guest
    ∷ entry 16 (codes "GET_CLIENT") on_get_client lev_guest
    ∷ entry 17 (codes "GET_STREAM") on_get_stream lev_guest
    ∷ entry 18 (codes "KICK") on_kick lev_pwruser
    ∷ entry 29 (codes "ATTACH") on_attach lev_pwruser
    ∷ entry 19 (codes "SET_VOL") on_set_vol lev_pwruser
    ∷ entry 20 (codes "GET_VOL") on_get_vol lev_guest
    ∷ entry 27 (codes "GET_STREAM_PARA") on_get_stream_para lev_guest
    ∷ entry 28 (codes "SET_STREAM_PARA") on_set_stream_para lev_pwruser
    ∷ entry 12 (codes "ADD_DATA") on_add_data lev_pwruser
    ∷ entry 24 (codes "BEEP") on_beep lev_user
    ∷ entry 35 (codes "WAIT") on_wait lev_user
    ∷ record { cmd = cmd_eol; name = codes "END OF LIST"; handler = none; minacclev = lev_none }
    ∷ []

-- The loop of command_get_id_by_cmd, from the entry `i` on.
pub find_id : List Entry → (i command : ℕ) → Option ℕ
find_id [] i command = none
find_id (e ∷ es) i command =
    let rest = find_id es (i + 1) command in
    if e.cmd == cmd_eol then none else if e.cmd == command then some i else rest

-- `command_get_id_by_cmd`; `none` is -1.
unfoldable pub get_id_by_cmd : ℕ → Option ℕ
unfolding find_id
get_id_by_cmd command = find_id commands 0 command

-- `g_clients[client]->acclev`, with no check: an access outside the table and one through NULL are
-- faults.
abbrev pub acclev_at : Server → ℕ → Run ℕ
acclev_at g client = elim (get_elem? g.clients client) [
  | none ↦ fault
  | some p ↦ elim p [ none ↦ fault | some c ↦ done c.acclev ]
]

abbrev pub entry_at : ℕ → Run Entry
entry_at i = elim (get_elem? commands i) [ none ↦ fault | some e ↦ done e ]

-- `command_exec`: the handler that it calls, with its own arguments and for its own result; `none`
-- is -1 without a call.
unfoldable pub exec : (client command : ℕ) → Server → Run (Option Handler)
unfolding get_id_by_cmd
exec client command g = elim (get_id_by_cmd command) [
  | none ↦ pure none
  | some i ↦ do
    e ← entry_at i
    level ← acclev_at g client
    pure (if ltb level e.minacclev then none else e.handler)
]

-- `command_get_name`; `none` is -1.
unfoldable pub get_name : ℕ → Run (Option Chars)
unfolding get_id_by_cmd
get_name command = elim (get_id_by_cmd command) [
  | none ↦ pure none
  | some i ↦ do e ← entry_at i; pure (some e.name)
]

-- `_g_acclevs` in front of its last entry
abbrev pub acclevs : Names
acclevs =
    (lev_none, codes "none")
    ∷ (lev_idented, codes "idented")
    ∷ (lev_conctl, codes "conctl")
    ∷ (lev_guest, codes "guest")
    ∷ (lev_user, codes "user")
    ∷ (lev_pwruser, codes "pwruser")
    ∷ (lev_all, codes "all")
    ∷ []

-- `clients_str2acclev`; `none` is -1.
unfoldable pub str2acclev : Chars → Option ℕ
str2acclev acclev = number_of same_letters acclevs acclev

-- `clients_acclev2str`; `none` is NULL.
unfoldable pub acclev2str : ℕ → Option Chars
acclev2str acclev = name_of acclevs acclev
