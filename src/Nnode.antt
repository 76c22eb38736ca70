-- ===== src/Nnode.antt =====
-- libroar/nnode.c: the address of a node in a network, and its form in a message. `nnode`, `blob` and
-- `len` are not NULL; the C library's socket addresses are lists of bytes.
pub mod Blob
pub mod Decnet
mod Tests
use roaraudio.Prelude.{
  ℕ, ◌+◌, ◌-◌, ◌*◌, ◌/◌, ◌%◌, ◌^◌, ◌≡◌, Bool, true, false, Option, none, some, List, [], ◌∷◌, ◌++◌,
  ◌==◌, ltb, if◌then◌else◌, not, ◌||◌, ◌&&◌, get_or, length, take, replicate,
}
use roaraudio.Status.{Status, ok, failed}
use roaraudio.Memory.{slice, copy}
use roaraudio.Proto.{net16, host16}

-- ROAR_SOCKET_TYPE_INET, _UNIX, _DECNET, _INET6 and _IPX
abbrev pub type_inet : ℕ
type_inet = 1

abbrev pub type_unix : ℕ
type_unix = 2

abbrev pub type_decnet : ℕ
type_decnet = 7

abbrev pub type_inet6 : ℕ
type_inet6 = 8

-- The union `addr`: the sixteen bytes that `inet4` and `inet6` share, or the member `decnet`.
pub data Addr : Type 0 where
  bytes : List ℕ → Addr
  decnet : (area node : ℕ) → Addr

-- `struct roar_nnode`
pub record Nnode : Type 0 where
  pub socktype : ℕ
  pub addr : Addr

-- `roar_nnode_new`, whose memset clears every member of the union
unfoldable pub new : ℕ → Nnode
new socktype = record { socktype = socktype; addr = bytes (replicate 16 0) }

-- What is read of the union through `inet4` and `inet6`. A union that holds `decnet` is read through
-- its own member only.
abbrev pub raw : Addr → List ℕ
raw (bytes b) = b
raw (decnet area node) = replicate 16 0

abbrev pub area_of : Addr → ℕ
area_of (bytes b) = 0
area_of (decnet area node) = area

abbrev pub node_of : Addr → ℕ
node_of (bytes b) = 0
node_of (decnet area node) = node

-- A new node with the `n` bytes of `src` from `off` on at the start of the union.
abbrev pub with_bytes : ℕ → List ℕ → (off n : ℕ) → Nnode
with_bytes socktype src off n = record {
  socktype = socktype;
  addr = bytes (copy (replicate 16 0) 0 (slice src off n));
}

-- `roar_nnode_from_blob`: the result, and `*len` after it. Where it fails, what it leaves in `*nnode`
-- is not read.
unfoldable pub from_blob : (blob : List ℕ) → (len : ℕ) → Option (Nnode × ℕ)
from_blob blob len =
    let socktype = host16 blob 0 in
    if ltb len 2
    then none
    else if socktype == type_unix
    then some (record { socktype = socktype; addr = bytes (replicate 16 0) }, 2)
    else if socktype == type_inet
    then (if ltb len 6 then none else some (with_bytes socktype blob 2 4, 6))
    else if socktype == type_decnet
    then (if ltb len 4
        then none
        else some (
          record {
            socktype = socktype;
            addr = decnet (get_or blob 3 0 / 4) (get_or blob 3 0 % 4 * 256);
          },
          4,
        ))
    else if socktype == type_inet6
    then (if ltb len 18 then none else some (with_bytes socktype blob 2 16, 18))
    else none

-- The two bytes of a DECnet address. `|` is `+` here, since the bits of the two parts are apart.
abbrev pub decnet_bytes : (area node : ℕ) → List ℕ
decnet_bytes area node = node % 256 ∷ (node / 256 % 4 + area * 4) % 256 ∷ []

-- `roar_nnode_to_blob`: the result, the memory at `blob`, and `*len`.
unfoldable pub to_blob : Nnode → (blob : List ℕ) → (len : ℕ) → Status × List ℕ × ℕ
to_blob n blob len =
    let typed = copy blob 0 (net16 n.socktype) in
    if ltb len 2
    then (failed, blob, len)
    else if n.socktype == type_unix
    then (ok, typed, 2)
    else if n.socktype == type_inet
    then (if ltb len 6 then (failed, typed, len) else (ok, copy typed 2 (take 4 (raw n.addr)), 6))
    else if n.socktype == type_decnet
    then (if ltb len 4
        then (failed, typed, len)
        else (failed, copy typed 2 (decnet_bytes (area_of n.addr) (node_of n.addr)), 4))
    else if n.socktype == type_inet6
    then (if ltb len 18
        then (failed, typed, len)
        else (ok, copy typed 2 (take 16 (raw n.addr)), 18))
    else (failed, typed, len)

abbrev pub same_bytes : List ℕ → List ℕ → Bool
same_bytes [] [] = true
same_bytes [] (d ∷ ds) = false
same_bytes (c ∷ cs) [] = false
same_bytes (c ∷ cs) (d ∷ ds) = (c == d) && same_bytes cs ds

-- `roar_nnode_cmp`: 0 is `some true`, 1 is `some false` and -1 is `none`.
unfoldable pub cmp : Nnode → Nnode → Option Bool
cmp m n =
    if not (m.socktype == n.socktype)
    then some false
    else if m.socktype == type_unix
    then some true
    else if m.socktype == type_inet
    then some (same_bytes (take 4 (raw m.addr)) (take 4 (raw n.addr)))
    else if m.socktype == type_decnet
    then some ((area_of m.addr == area_of n.addr) && (node_of m.addr == node_of n.addr))
    else if m.socktype == type_inet6
    then some (same_bytes (take 16 (raw m.addr)) (take 16 (raw n.addr)))
    else none

-- The address families of `struct sockaddr` that the switches name; another one is `other`.
pub data Family : Type 0 where
  af_inet af_inet6 af_unix af_decnet af_ipx other : Family

-- `roar_nnode_new_from_af`: every family is compiled in.
unfoldable pub new_from_af : Family → Option Nnode
unfolding new
new_from_af af_inet = some (new type_inet)
new_from_af af_inet6 = some (new type_inet6)
new_from_af af_unix = some (new type_unix)
new_from_af af_decnet = some (new type_decnet)
new_from_af af_ipx = some (new 11)
new_from_af other = none
