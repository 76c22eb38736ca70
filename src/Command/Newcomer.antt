-- ===== src/Command/Newcomer.antt =====
-- A new client (clients_new in roard/clients.c) and the commands it may use (roard/commands.c).
use roaraudio.Prelude.{
  ℕ, ◌≤◌, ◌<◌, ◌≡◌, ◌⊎◌, inl, inr, refl, ap, ◌∙◌, true, none, some, [], ◌∷◌, ◌++◌, get_elem?,
  length, length-set, arith, ==-self, ==-ne, ◌≢◌,
}
use roaraudio.Memory.{add_size}
use roaraudio.Meta.{done}
use roaraudio.Client.{Server, new_client, clients_new, free_place, put, minus_one, clients_max}
use roaraudio.Client.Slots.{count, free_place-first, count-replicate}
use roaraudio.Prelude.Places.{get_elem?-set, of-get_elem?-set, get_elem?-inside}
use roaraudio.Client.Owned.{slots_in, slots_of, IsServer, Owned}
use roaraudio.Command.{
  Handler, on_noop, on_identify, on_auth, on_whoami, on_new_stream, on_set_meta, on_get_meta,
  on_list_meta, on_exec_stream, clients_delete, on_con_stream, on_passfh, on_server_info,
  on_server_oinfo, on_caps, on_get_standby, on_set_standby, on_exit, on_list_clients,
  on_list_streams, on_get_client, on_get_stream, on_kick, on_attach, on_set_vol, on_get_vol,
  on_get_stream_para, on_set_stream_para, on_add_data, on_beep, on_wait, exec,
}
use roaraudio.Command.Access.{required, exec_iff}

-- What needs no access level.
abbrev pub IsBasic : Handler → Type 0
IsBasic h = (h ≡ on_noop) ⊎ ((h ≡ on_identify) ⊎ ((h ≡ on_whoami) ⊎ (h ≡ clients_delete)))

required-IsBasic : (h : Handler) → required h ≤ 0 → IsBasic h
required-IsBasic on_noop small = inl refl
required-IsBasic on_identify small = inr (inl refl)
required-IsBasic on_auth small = absurd (omega arith)
required-IsBasic on_whoami small = inr (inr (inl refl))
required-IsBasic on_new_stream small = absurd (omega arith)
required-IsBasic on_set_meta small = absurd (omega arith)
required-IsBasic on_get_meta small = absurd (omega arith)
required-IsBasic on_list_meta small = absurd (omega arith)
required-IsBasic on_exec_stream small = absurd (omega arith)
required-IsBasic clients_delete small = inr (inr (inr refl))
required-IsBasic on_con_stream small = absurd (omega arith)
required-IsBasic on_passfh small = absurd (omega arith)
required-IsBasic on_server_info small = absurd (omega arith)
required-IsBasic on_server_oinfo small = absurd (omega arith)
required-IsBasic on_caps small = absurd (omega arith)
required-IsBasic on_get_standby small = absurd (omega arith)
required-IsBasic on_set_standby small = absurd (omega arith)
required-IsBasic on_exit small = absurd (omega arith)
required-IsBasic on_list_clients small = absurd (omega arith)
required-IsBasic on_list_streams small = absurd (omega arith)
required-IsBasic on_get_client small = absurd (omega arith)
required-IsBasic on_get_stream small = absurd (omega arith)
required-IsBasic on_kick small = absurd (omega arith)
required-IsBasic on_attach small = absurd (omega arith)
required-IsBasic on_set_vol small = absurd (omega arith)
required-IsBasic on_get_vol small = absurd (omega arith)
required-IsBasic on_get_stream_para small = absurd (omega arith)
required-IsBasic on_set_stream_para small = absurd (omega arith)
required-IsBasic on_add_data small = absurd (omega arith)
required-IsBasic on_beep small = absurd (omega arith)
required-IsBasic on_wait small = absurd (omega arith)

abbrev after_new : Server → ℕ → Server
after_new g i = record (put g i new_client) {
  counter = add_size g.counter 1;
  sum = add_size g.sum 1;
  announced = g.announced ++ (i ∷ []);
}

module _ (g : Server) (i : ℕ) (v : IsServer g) (free : free_place g.clients ≡ some i) where
  place_lem : i < clients_max
  place_lem =
      omega
        (arith, v.clients, get_elem?-inside g.clients i none (free_place-first g.clients i free))

  new_run : clients_new true g ≡ done (i, after_new g i)
  unfolding clients_new
  new_run = rw (free, clients_new) refl

  new_Owned : Owned g → Owned (after_new g i)
  new_Owned owned s small c h =
      let size : i < length g.clients = omega (arith, v.clients, place_lem) in
      let e = of-get_elem?-set slots_in g.clients i c (some new_client) size in
      let none_new : count s (slots_in (some (some new_client))) ≡ 0 =
        count-replicate s minus_one 12 (omega arith) in
      let none_old : count s (slots_of g i) ≡ 0 =
        ap (λ p. count s (slots_in p)) (free_place-first g.clients i free) in
      ap (count s) e
      ∙ ground (arith, owned s small c h, owned s small i place_lem, none_new, none_old)

  -- In a server with all places of its two tables, whose slots and owners agree, `clients_new`
  -- with memory and a free place puts a new client in the first one and leaves the others as they
  -- were, and slots and owners still agree; the new
  -- client, until its access level is raised, can have no handler called but those of NOOP,
  -- IDENTIFY, WHOAMI and QUIT.
  pub clients_new-IsBasic :
      Owned g
      → (g' : Server) × (clients_new true g ≡ done (i, g'))
        × (get_elem? g'.clients i ≡ some (some new_client))
        × ((j : ℕ) → i ≢ j → get_elem? g'.clients j ≡ get_elem? g.clients j)
        × IsServer g'
        × Owned g'
        × ((command : ℕ) (h : Handler) → exec i command g' ≡ done (some h) → IsBasic h)
  clients_new-IsBasic owned =
      let g' = after_new g i in
      let there : get_elem? g'.clients i ≡ some (some new_client) =
        get_elem?-set g.clients i i (some new_client) (omega (arith, v.clients, place_lem))
        ∙ rw (==-self i) refl in
      (
        g',
        new_run,
        there,
        (λ j other.
            get_elem?-set g.clients i j (some new_client) (omega (arith, v.clients, place_lem))
            ∙ rw (==-ne i j other) refl),
        record {
          clients = length-set g.clients i (some new_client) ∙ v.clients;
          streams = v.streams;
        },
        new_Owned owned,
        λ command h run. required-IsBasic h ((exec_iff g' i new_client there command h).1.0 run).1,
      )
