-- ===== src/Nnode/Decnet.antt =====
-- DECnet nodes in roar_nnode_to_blob and roar_nnode_from_blob (libroar/nnode.c).
use roaraudio.Prelude.{ℕ, ◌+◌, ◌*◌, ◌/◌, ◌%◌, ◌≤◌, ◌<◌, ◌≡◌, ap₂, some, List, arith}
use roaraudio.Status.{failed}
use roaraudio.Memory.{copy}
use roaraudio.Proto.{net16}
use roaraudio.Nnode.{Nnode, decnet, type_decnet, to_blob, from_blob, decnet_bytes}

abbrev pub decnet_node : (area node : ℕ) → Nnode
decnet_node area node = record { socktype = type_decnet; addr = decnet area node }

abbrev pub written : (area node : ℕ) → List ℕ → List ℕ
written area node blob = copy (copy blob 0 (net16 type_decnet)) 2 (decnet_bytes area node)

read_lem :
    (area node : ℕ) (blob : List ℕ)
    → area < 64
    → node < 1024
    → from_blob (written area node blob) 4 ≡ some (decnet_node area (node / 256 * 256), 4)
unfolding from_blob copy
read_lem area node blob a b =
    let high : (node / 256 % 4 + area * 4) % 256 / 4 ≡ area = omega arith in
    let low : (node / 256 % 4 + area * 4) % 256 % 4 * 256 ≡ node / 256 * 256 = omega arith in
    ap₂ (λ x y. some (decnet_node x y, 4)) high low

-- `roar_nnode_to_blob` of a DECnet node, its area below 64 and its number below 1024, with four
-- bytes of room writes its four bytes and still reports a failure; and `roar_nnode_from_blob` of
-- these bytes, which succeeds, gives the area and only the part of the number above its low eight
-- bits.
to_blob-decnet :
    (area node : ℕ) (blob : List ℕ) (len : ℕ)
    → area < 64
    → node < 1024
    → 4 ≤ len
    → (to_blob (decnet_node area node) blob len ≡ (failed, written area node blob, 4))
      × (from_blob (written area node blob) 4 ≡ some (decnet_node area (node / 256 * 256), 4))
unfolding to_blob
to_blob-decnet area node blob len a b room = (ground arith, read_lem area node blob a b)
