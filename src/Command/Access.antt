-- ===== src/Command/Access.antt =====
-- Who may have which command run (roard/commands.c).
use roaraudio.Prelude.{
  ℕ, suc, ◌+◌, ◌≤◌, ◌≡◌, ◌≢◌, ◌↔◌, inl, inr, refl, sym, ap, ◌∙◌, Bool, true, false, Option, none,
  some, List, [], ◌∷◌, ◌==◌, ◌&&◌, ltb, if◌then◌else◌, get_elem?, arith, Option-cases, Bool-cases,
}
use roaraudio.Meta.{Run, done}
use roaraudio.Client.{Client, Server}
use roaraudio.Command.{
  Handler, on_noop, on_identify, on_auth, on_whoami, on_new_stream, on_set_meta, on_get_meta,
  on_list_meta, on_exec_stream, clients_delete, on_con_stream, on_passfh, on_server_info,
  on_server_oinfo, on_caps, on_get_standby, on_set_standby, on_exit, on_list_clients,
  on_list_streams, on_get_client, on_get_stream, on_kick, on_attach, on_set_vol, on_get_vol,
  on_get_stream_para, on_set_stream_para, on_add_data, on_beep, on_wait, Entry, commands, cmd_eol,
  find_id, get_id_by_cmd, exec, acclev_at, lev_none, lev_idented, lev_guest, lev_user, lev_pwruser,
  lev_all,
}

-- The number of the command that has a handler called.
abbrev pub command_of : Handler → ℕ
command_of on_noop = 0
command_of on_identify = 1
command_of on_auth = 2
command_of on_whoami = 32
command_of on_new_stream = 3
command_of on_set_meta = 4
command_of on_get_meta = 22
command_of on_list_meta = 23
command_of on_exec_stream = 5
command_of clients_delete = 6
command_of on_con_stream = 21
command_of on_passfh = 30
command_of on_server_info = 9
command_of on_server_oinfo = 11
command_of on_caps = 34
command_of on_get_standby = 7
command_of on_set_standby = 8
command_of on_exit = 13
command_of on_list_clients = 15
command_of on_list_streams = 14
command_of on_get_client = 16
command_of on_get_stream = 17
command_of on_kick = 18
command_of on_attach = 29
command_of on_set_vol = 19
command_of on_get_vol = 20
command_of on_get_stream_para = 27
command_of on_set_stream_para = 28
command_of on_add_data = 12
command_of on_beep = 24
command_of on_wait = 35

-- The least access level of a client that may call a handler.
abbrev pub required : Handler → ℕ
required on_noop = lev_none
required on_identify = lev_none
required on_auth = lev_idented
required on_whoami = lev_none
required on_new_stream = lev_user
required on_set_meta = lev_pwruser
required on_get_meta = lev_guest
required on_list_meta = lev_guest
required on_exec_stream = lev_pwruser
required clients_delete = lev_none
required on_con_stream = lev_pwruser
required on_passfh = lev_pwruser
required on_server_info = lev_idented
required on_server_oinfo = lev_idented
required on_caps = lev_idented
required on_get_standby = lev_guest
required on_set_standby = lev_pwruser
required on_exit = lev_all
required on_list_clients = lev_guest
required on_list_streams = lev_guest
required on_get_client = lev_guest
required on_get_stream = lev_guest
required on_kick = lev_pwruser
required on_attach = lev_pwruser
required on_set_vol = lev_pwruser
required on_get_vol = lev_guest
required on_get_stream_para = lev_guest
required on_set_stream_para = lev_pwruser
required on_add_data = lev_pwruser
required on_beep = lev_user
required on_wait = lev_user

-- An entry is that of its handler, or the end of the list.
abbrev fits : Option Handler → (cmd level : ℕ) → Bool
fits none cmd level = cmd == cmd_eol
fits (some h) cmd level = (cmd == command_of h) && (level == required h)

abbrev described : Entry → Bool
described e = fits e.handler e.cmd e.minacclev

abbrev all_described : List Entry → Bool
all_described [] = true
all_described (e ∷ es) = described e && all_described es

commands_described : all_described commands ≡ true
commands_described = refl

found :
    (es : List Entry) (i command j : ℕ)
    → all_described es ≡ true
    → find_id es i command ≡ some j
    → (k : ℕ) × (e : Entry) × (j ≡ i + k)
      × (get_elem? es k ≡ some e)
      × (e.cmd ≡ command)
      × (e.cmd ≢ cmd_eol)
      × (described e ≡ true)
unfolding find_id
found [] i command j d f = absurd (ground arith)
found (e ∷ es) i command j d f = elim (Bool-cases (e.cmd == cmd_eol)) [
  | inl end ↦ absurd (ground arith)
  | inr more ↦ elim (Bool-cases (e.cmd == command)) [
    | inl here ↦ (0, e, ground arith, refl, ground arith, ground arith, ground arith)
    | inr later ↦
        let r = found es (i + 1) command j (ground arith) (ground arith) in
        (suc r.0, r.1, omega (arith, r.2), r.3, r.4, r.5, r.6)
  ]
]

found_at :
    (command i : ℕ)
    → get_id_by_cmd command ≡ some i
    → (e : Entry) × (get_elem? commands i ≡ some e)
      × (e.cmd ≡ command)
      × (e.cmd ≢ cmd_eol)
      × (described e ≡ true)
unfolding get_id_by_cmd
found_at command i p =
    let f = found commands 0 command i commands_described p in
    let same : i ≡ f.0 = omega (arith, f.2) in
    (f.1, ap (get_elem? commands) same ∙ f.3, f.4, f.5, f.6)

-- Where a handler stands in the table.
entry_of :
    (h : Handler)
    → (i : ℕ) × (get_id_by_cmd (command_of h) ≡ some i)
      × (e : Entry) × (get_elem? commands i ≡ some e)
      × (e.handler ≡ some h)
      × (e.minacclev ≡ required h)
unfolding get_id_by_cmd find_id
entry_of on_noop = (0, refl, _, refl, refl, refl)
entry_of on_identify = (1, refl, _, refl, refl, refl)
entry_of on_auth = (2, refl, _, refl, refl, refl)
entry_of on_whoami = (3, refl, _, refl, refl, refl)
entry_of on_new_stream = (4, refl, _, refl, refl, refl)
entry_of on_set_meta = (5, refl, _, refl, refl, refl)
entry_of on_get_meta = (6, refl, _, refl, refl, refl)
entry_of on_list_meta = (7, refl, _, refl, refl, refl)
entry_of on_exec_stream = (8, refl, _, refl, refl, refl)
entry_of clients_delete = (9, refl, _, refl, refl, refl)
entry_of on_con_stream = (10, refl, _, refl, refl, refl)
entry_of on_passfh = (11, refl, _, refl, refl, refl)
entry_of on_server_info = (12, refl, _, refl, refl, refl)
entry_of on_server_oinfo = (13, refl, _, refl, refl, refl)
entry_of on_caps = (14, refl, _, refl, refl, refl)
entry_of on_get_standby = (15, refl, _, refl, refl, refl)
entry_of on_set_standby = (16, refl, _, refl, refl, refl)
entry_of on_exit = (17, refl, _, refl, refl, refl)
entry_of on_list_clients = (18, refl, _, refl, refl, refl)
entry_of on_list_streams = (19, refl, _, refl, refl, refl)
entry_of on_get_client = (20, refl, _, refl, refl, refl)
entry_of on_get_stream = (21, refl, _, refl, refl, refl)
entry_of on_kick = (22, refl, _, refl, refl, refl)
entry_of on_attach = (23, refl, _, refl, refl, refl)
entry_of on_set_vol = (24, refl, _, refl, refl, refl)
entry_of on_get_vol = (25, refl, _, refl, refl, refl)
entry_of on_get_stream_para = (26, refl, _, refl, refl, refl)
entry_of on_set_stream_para = (27, refl, _, refl, refl, refl)
entry_of on_add_data = (28, refl, _, refl, refl, refl)
entry_of on_beep = (29, refl, _, refl, refl, refl)
entry_of on_wait = (30, refl, _, refl, refl, refl)

module _ (g : Server) (client : ℕ) (c : Client)
    (present : get_elem? g.clients client ≡ some (some c)) where
  exec_at :
      (command i : ℕ) (e : Entry)
      → get_id_by_cmd command ≡ some i
      → get_elem? commands i ≡ some e
      → exec client command g ≡ done (if ltb c.acclev e.minacclev then none else e.handler)
  unfolding exec
  exec_at command i e p q = rw (p, q, exec) (rw (present, acclev_at) refl)

  exec_unknown : (command : ℕ) → get_id_by_cmd command ≡ none → exec client command g ≡ done none
  unfolding exec
  exec_unknown command p = rw (p, exec) refl

  called :
      (e : Entry) (command : ℕ) (h : Handler)
      → described e ≡ true
      → e.cmd ≡ command
      → e.cmd ≢ cmd_eol
      → ◌≡◌ {A = Run (Option Handler)}
          (done (if ltb c.acclev e.minacclev then none else e.handler))
          (done (some h))
      → (command ≡ command_of h) × (required h ≤ c.acclev)
  called e command h d same more run = elim (Bool-cases (ltb c.acclev e.minacclev)) [
    | inl low ↦ absurd (ground (arith, low))
    | inr high ↦
        let handles : e.handler ≡ some h = ground (arith, high) in
        let cases : ((e.cmd == command_of h) && (e.minacclev == required h)) ≡ true =
          ap (λ o. fits o e.cmd e.minacclev) (sym handles) ∙ d in
        (ground (arith, cases), ground (arith, cases, high))
  ]

  exec_total : (command : ℕ) → (result : Option Handler) × (exec client command g ≡ done result)
  exec_total command = elim (Option-cases (get_id_by_cmd command)) [
    | inl p ↦ (none, exec_unknown command p)
    | inr (i, p) ↦
        let f = found_at command i p in
        ((if ltb c.acclev f.0.minacclev then none else f.0.handler), exec_at command i f.0 p f.1)
  ]

  exec-only :
      (command : ℕ) (h : Handler)
      → exec client command g ≡ done (some h)
      → (command ≡ command_of h) × (required h ≤ c.acclev)
  exec-only command h run = elim (Option-cases (get_id_by_cmd command)) [
    | inl p ↦ absurd (cc (exec_unknown command p))
    | inr (i, p) ↦
        let f = found_at command i p in
        called f.0 command h f.4 f.2 f.3 (sym (exec_at command i f.0 p f.1) ∙ run)
  ]

  exec-allowed :
      (h : Handler) → required h ≤ c.acclev → exec client (command_of h) g ≡ done (some h)
  exec-allowed h enough =
      let e = entry_of h in
      let high : ltb c.acclev e.2.minacclev ≡ false = ground (arith, e.5) in
      exec_at (command_of h) e.0 e.2 e.1 e.3 ∙ rw (high, e.4) refl

  -- `command_exec` for a client that exists never reads outside a table, whatever the command; it
  -- calls a handler exactly if the message has that handler's command and the access level of the
  -- client is at least what the handler requires.
  pub exec_iff :
      (command : ℕ) (h : Handler)
      → ((result : Option Handler) × (exec client command g ≡ done result))
        × ((exec client command g ≡ done (some h))
            ↔ ((command ≡ command_of h) × (required h ≤ c.acclev)))
  exec_iff command h = (
    exec_total command,
    (
      exec-only command h,
      λ (p : (command ≡ command_of h) × (required h ≤ c.acclev)). rw p.0 (exec-allowed h p.1),
    ),
  )
