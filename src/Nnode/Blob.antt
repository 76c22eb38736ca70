-- ===== src/Nnode/Blob.antt =====
-- The round trip of roar_nnode_to_blob and roar_nnode_from_blob (libroar/nnode.c).
use roaraudio.Prelude.{
  ℕ, ◌+◌, ◌≤◌, ◌≡◌, ◌⊎◌, inl, inr, refl, sym, ◌∙◌, ap, true, some, List, [], ◌∷◌, arith, length,
  length-take, take, drop, ==-self, replicate,
}
use roaraudio.Status.{ok}
use roaraudio.Prelude.TakeDrop.{take-append, take_all}
use roaraudio.Memory.{slice, copy, slice-copy_self, length-copy}
use roaraudio.Proto.{net16}
use roaraudio.Nnode.{
  Nnode, raw, type_unix, type_inet, type_inet6, to_blob, from_blob, same_bytes, cmp, with_bytes,
  new,
}

-- A node whose address has a form in a blob that can be read again.
abbrev pub IsPortable : Nnode → Type 0
IsPortable n =
    (n.socktype ≡ type_unix)
    ⊎ ((length (raw n.addr) ≡ 16) × ((n.socktype ≡ type_inet) ⊎ (n.socktype ≡ type_inet6)))

pub same_bytes_refl : (s : List ℕ) → same_bytes s s ≡ true
same_bytes_refl [] = refl
same_bytes_refl (c ∷ cs) = rw (==-self c) (same_bytes_refl cs)

-- What is written of an address of `k` bytes.
abbrev written : ℕ → ℕ → List ℕ → List ℕ → List ℕ
written socktype k src blob = copy (copy blob 0 (net16 socktype)) 2 (take k src)

written_lem :
    (socktype k : ℕ) (src blob : List ℕ)
    → k ≤ length src
    → 2 + k ≤ length blob
    → slice (written socktype k src blob) 2 k ≡ take k src
written_lem socktype k src blob have fits =
    let size : length (take k src) ≡ k = omega (arith, length-take k src) in
    let typed : length (copy blob 0 (net16 socktype)) ≡ length blob =
      length-copy blob 0 (net16 socktype) (omega arith) in
    ap (λ n. slice (written socktype k src blob) 2 n) (sym size)
    ∙ slice-copy_self (copy blob 0 (net16 socktype)) 2 (take k src) (omega arith)

-- The address that is read back.
address_lem :
    (socktype k : ℕ) (src blob : List ℕ)
    → k ≤ length src
    → 2 + k ≤ length blob
    → take k (copy (replicate 16 0) 0 (slice (written socktype k src blob) 2 k)) ≡ take k src
unfolding copy
address_lem socktype k src blob have fits =
    let size : length (take k src) ≡ k = omega (arith, length-take k src) in
    rw (written_lem socktype k src blob have fits) (
      take-append (take k src) (drop (0 + length (take k src)) (replicate 16 0)) k (omega arith)
      ∙ take_all (take k src) k (omega arith))

module _ (n : Nnode) (blob : List ℕ) (len : ℕ) (room : 18 ≤ len) where
  to_blob-unix : n.socktype ≡ type_unix → to_blob n blob len ≡ (ok, copy blob 0 (net16 2), 2)
  unfolding to_blob
  to_blob-unix e = rw e (ground arith)

  to_blob-inet :
      n.socktype ≡ type_inet → to_blob n blob len ≡ (ok, written 1 4 (raw n.addr) blob, 6)
  unfolding to_blob
  to_blob-inet e = rw e (ground arith)

  to_blob-inet6 :
      n.socktype ≡ type_inet6 → to_blob n blob len ≡ (ok, written 8 16 (raw n.addr) blob, 18)
  unfolding to_blob
  to_blob-inet6 e = rw e (ground arith)

module _ (src blob : List ℕ) where
  from_blob-unix : from_blob (copy blob 0 (net16 2)) 2 ≡ some (new type_unix, 2)
  unfolding from_blob copy new
  from_blob-unix = refl

  from_blob-inet :
      from_blob (written 1 4 src blob) 6 ≡ some (with_bytes 1 (written 1 4 src blob) 2 4, 6)
  unfolding from_blob copy
  from_blob-inet = refl

  from_blob-inet6 :
      from_blob (written 8 16 src blob) 18 ≡ some (with_bytes 8 (written 8 16 src blob) 2 16, 18)
  unfolding from_blob copy
  from_blob-inet6 = refl

module _ (n m : Nnode) (same_type : m.socktype ≡ n.socktype) where
  cmp-unix : n.socktype ≡ type_unix → cmp n m ≡ some true
  unfolding cmp
  cmp-unix e = rw (same_type, e) refl

  cmp-inet :
      n.socktype ≡ type_inet → take 4 (raw m.addr) ≡ take 4 (raw n.addr) → cmp n m ≡ some true
  unfolding cmp
  cmp-inet e a = rw (same_type, e, a) (ap some (same_bytes_refl (take 4 (raw n.addr))))

  cmp-inet6 :
      n.socktype ≡ type_inet6 → take 16 (raw m.addr) ≡ take 16 (raw n.addr) → cmp n m ≡ some true
  unfolding cmp
  cmp-inet6 e a = rw (same_type, e, a) (ap some (same_bytes_refl (take 16 (raw n.addr))))

-- A node of the UNIX type, or of the IPv4 or IPv6 type with sixteen bytes of address, that is
-- written into a blob with 18 bytes or more is read back as a node that compares as equal, from
-- the same number of bytes.
pub from_blob-to_blob :
    (n : Nnode) (blob : List ℕ) (len : ℕ)
    → IsPortable n
    → 18 ≤ len
    → len ≤ length blob
    → (blob' : List ℕ) × (used : ℕ) × (m : Nnode) × (to_blob n blob len ≡ (ok, blob', used))
      × (from_blob blob' used ≡ some (m, used))
      × (cmp n m ≡ some true)
from_blob-to_blob n blob len (inl e) room fits = (
  copy blob 0 (net16 2),
  2,
  new type_unix,
  to_blob-unix n blob len room e,
  from_blob-unix [] blob,
  cmp-unix n (new type_unix) (unfold new in sym e) e,
)
from_blob-to_blob n blob len (inr (size, inl e)) room fits =
    let blob' = written 1 4 (raw n.addr) blob in
    let m = with_bytes 1 blob' 2 4 in
    let address = address_lem 1 4 (raw n.addr) blob (omega arith) (omega arith) in
    (
      blob',
      6,
      m,
      to_blob-inet n blob len room e,
      from_blob-inet (raw n.addr) blob,
      cmp-inet n m (sym e) e address,
    )
from_blob-to_blob n blob len (inr (size, inr e)) room fits =
    let blob' = written 8 16 (raw n.addr) blob in
    let m = with_bytes 8 blob' 2 16 in
    let address = address_lem 8 16 (raw n.addr) blob (omega arith) (omega arith) in
    (
      blob',
      18,
      m,
      to_blob-inet6 n blob len room e,
      from_blob-inet6 (raw n.addr) blob,
      cmp-inet6 n m (sym e) e address,
    )
