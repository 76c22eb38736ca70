-- ===== src/Command/Tests.antt =====
-- Runs of the theorems on commands and access levels.
use roaraudio.Prelude.{
  ℕ, ◌≤◌, ◌≡◌, ◌≢◌, ◌↔◌, get_elem?, refl, true, Option, none, some, [], ◌∷◌, replicate,
}
use roaraudio.Meta.{done}
use roaraudio.Text.{codes}
use roaraudio.Client.{Client, Server, new_client, clients_new, minus_one}
use roaraudio.Client.Tests.{house, house-IsServer, house-Owned, house_free}
use roaraudio.Client.Owned.{IsServer, Owned}
use roaraudio.Command.{Handler, on_exit, exec, str2acclev}
use roaraudio.Command.Access.{command_of, exec_iff}
use roaraudio.Command.Newcomer.{IsBasic, clients_new-IsBasic}

abbrev empty_server : Server
empty_server = record {
  clients = replicate 64 none;
  streams = replicate 64 none;
  counter = 0;
  sum = 0;
  closed = [];
  announced = [];
  stream_counter = 0;
  stream_sum = 0;
  recsource_id = minus_one;
  thru_num = 0;
  alive = true;
}

empty_server-IsServer : IsServer empty_server
empty_server-IsServer = record { clients = refl; streams = refl }

abbrev admin : Client
admin = record new_client { acclev = 6 }

abbrev with_admin : Server
with_admin = record empty_server { clients = some admin ∷ replicate 63 none }

exec_iff_example :
    ((result : Option Handler) × (exec 0 13 with_admin ≡ done result))
    × ((exec 0 13 with_admin ≡ done (some on_exit)) ↔ ((13 ≡ command_of on_exit) × (6 ≤ 6)))
exec_iff_example = exec_iff with_admin 0 admin refl 13 on_exit

clients_new-IsBasic_example :
    (g' : Server) × (clients_new true house ≡ done (3, g'))
    × (get_elem? g'.clients 3 ≡ some (some new_client))
    × ((j : ℕ) → 3 ≢ j → get_elem? g'.clients j ≡ get_elem? house.clients j)
    × IsServer g'
    × Owned g'
    × ((command : ℕ) (h : Handler) → exec 3 command g' ≡ done (some h) → IsBasic h)
clients_new-IsBasic_example = clients_new-IsBasic house 3 house-IsServer house_free house-Owned

str2acclev_test : str2acclev (codes "PwrUser") ≡ some 5
unfolding str2acclev
str2acclev_test = refl
