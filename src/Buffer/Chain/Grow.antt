-- ===== src/Buffer/Chain/Grow.antt =====
-- roar_buffer_add and roar_buffer_free of libroar/buffer.c on whole chains, and the sums of
-- roar_buffer_ring_stats.
use Prim.Native.Nat.{bit_and}
use roaraudio.Prelude.{
  ℕ, zero, suc, ◌<◌, ◌≡◌, refl, sym, ◌∙◌, true, false, ◌||◌, none, some, List, [], ◌∷◌, ◌++◌,
  length, arith, ==-self, if◌then◌else◌, ◌==◌,
}
use mathlib.Core.List.{append_assoc}
use roaraudio.Status.{Status, ok}
use roaraudio.Memory.{slice}
use roaraudio.Buffer.{Buffer, Ptr, flag_nofree, flag_ring}
use roaraudio.Buffer.Chain.{Heap, update, Run, done, link, add, points_to, free_loop, free, release}
use roaraudio.Buffer.Chain.Shape.{
  Cells, has, IsChain, content, SameElse, frame-update, load-at, store-at, freed_by, without,
}

-- the chain `xs` with `q` behind its last struct
abbrev pub relink : Cells → Ptr → Cells
relink [] q = []
relink ((a, b) ∷ []) q = (a, record b { next = q }) ∷ []
relink ((a, b) ∷ c ∷ xs) q = (a, b) ∷ relink (c ∷ xs) q

pub has-relink : (i : ℕ) (xs : Cells) (q : Ptr) → has i (relink xs q) ≡ has i xs
has-relink i [] q = refl
has-relink i ((a, b) ∷ []) q = refl
has-relink i ((a, b) ∷ c ∷ xs) q = rw (has-relink i (c ∷ xs) q)

pub has-append : (i : ℕ) (xs ys : Cells) → has i (xs ++ ys) ≡ (has i xs || has i ys)
has-append i [] ys = refl
has-append i ((a, b) ∷ xs) ys = rw (has-append i xs ys) (ground arith)

pub joined-lacks :
    (i : ℕ) (xs ys : Cells) (q : Ptr)
    → has i xs ≡ false
    → has i ys ≡ false
    → has i (relink xs q ++ ys) ≡ false
joined-lacks i xs ys q e e' = rw (has-append, has-relink, e) e'

pub content-relink : (xs : Cells) (q : Ptr) → content (relink xs q) ≡ content xs
content-relink [] q = refl
content-relink ((a, b) ∷ []) q = refl
content-relink ((a, b) ∷ c ∷ xs) q = rw (content-relink (c ∷ xs) q)

pub content-append : (xs ys : Cells) → content (xs ++ ys) ≡ content xs ++ content ys
content-append [] ys = refl
content-append ((a, b) ∷ xs) ys =
    rw (content-append xs ys)
      (sym (append_assoc (slice b.block b.user_off b.user_len) (content xs) (content ys)))

abbrev pub Apart : Cells → Cells → Type 0
Apart xs ys = (i : ℕ) → has i xs ≡ true → has i ys ≡ false

-- What the walk leaves.
record Linked (h : Heap) (p q : Ptr) (xs ys : Cells) (r : Run Status) : Type 0 where
  heap : Heap
  ends : r ≡ done ok heap
  chain : IsChain heap p (relink xs q ++ ys)
  same : SameElse xs h heap

link-Linked :
    (h : Heap) (a : ℕ) (b : Buffer) (xs ys : Cells) (q : Ptr) (k : ℕ)
    → length xs < k
    → IsChain h (some a) ((a, b) ∷ xs)
    → IsChain h q ys
    → Apart ((a, b) ∷ xs) ys
    → Linked h (some a) q ((a, b) ∷ xs) ys (link k a q h)
unfolding link
link-Linked h a b xs ys q zero fuel c d apart = absurd (omega arith)
link-Linked h a b [] ys q (suc k) fuel c d apart = record {
  heap = record h { cell = update h.cell a (some (record b { next = q })) };
  ends = rw (load-at h a b c.1, c.3, store-at h a b c.1 (record b { next = q }));
  chain = (
    refl,
    rw ==-self,
    apart a (ground arith),
    frame-update h q ys a (some (record b { next = q })) h.freed d (apart a (ground arith)),
  );
  same = λ i o. ground arith;
}
link-Linked h a b ((a', b') ∷ xs) ys q (suc k) fuel c d apart =
    let t =
      link-Linked h a' b' xs ys q k (omega arith) (refl, c.3.1, c.3.2, c.3.3) d
        (λ i m. apart i (ground arith)) in
    record {
      heap = t.heap;
      ends = rw (load-at h a b c.1, c.3.0) t.ends;
      chain = (
        refl,
        t.same a c.2 ∙ c.1,
        joined-lacks a ((a', b') ∷ xs) ys q c.2 (apart a (ground arith)),
        rw c.3.0 t.chain,
      );
      same = λ i o. t.same i (ground arith);
    }

-- What roar_buffer_add does with two chains that share no struct.
pub add-relink :
    (h : Heap) (a : ℕ) (b : Buffer) (xs ys : Cells) (q : Ptr) (fuel : ℕ)
    → length xs < fuel
    → IsChain h (some a) ((a, b) ∷ xs)
    → IsChain h q ys
    → Apart ((a, b) ∷ xs) ys
    → bit_and b.flags flag_ring ≡ 0
    → points_to q a ≡ false
    → (g : Heap) × (add fuel (some a) q h ≡ done ok g)
      × IsChain g (some a) (relink ((a, b) ∷ xs) q ++ ys)
      × SameElse ((a, b) ∷ xs) h g
unfolding add
add-relink h a b xs ys q fuel enough c d apart flag other =
    let t = link-Linked h a b xs ys q fuel enough c d apart in
    (t.heap, rw (load-at h a b c.1, flag, other) t.ends, t.chain, t.same)

-- `roar_buffer_add` of a chain to another that is no ring and has no struct in common with it
-- joins the two: the bytes of the first come first, the structs stand where they stood, and of all
-- structs only the last one of the first chain is another, whose `next` leads to the second chain.
-- A round for each struct of the first is enough.
pub add-append :
    (h : Heap) (a : ℕ) (b : Buffer) (xs ys : Cells) (q : Ptr) (fuel : ℕ)
    → length xs < fuel
    → IsChain h (some a) ((a, b) ∷ xs)
    → IsChain h q ys
    → Apart ((a, b) ∷ xs) ys
    → bit_and b.flags flag_ring ≡ 0
    → points_to q a ≡ false
    → (g : Heap) × (add fuel (some a) q h ≡ done ok g)
      × IsChain g (some a) (relink ((a, b) ∷ xs) q ++ ys)
      × (content (relink ((a, b) ∷ xs) q ++ ys) ≡ content ((a, b) ∷ xs) ++ content ys)
      × SameElse ((a, b) ∷ xs) h g
add-append h a b xs ys q fuel enough c d apart flag other =
    let t = add-relink h a b xs ys q fuel enough c d apart flag other in
    (
      t.0,
      t.1,
      t.2,
      content-append (relink ((a, b) ∷ xs) q) ys ∙ rw (content-relink ((a, b) ∷ xs) q),
      t.3,
    )

-- the structs that own their blocks, the last one first, in front of `l`
abbrev pub owners : Cells → List ℕ → List ℕ
owners [] l = l
owners ((a, b) ∷ xs) l = owners xs (if bit_and b.flags flag_nofree == 1 then l else a ∷ l)

-- What the loop of roar_buffer_free leaves of a chain.
record Freed (h : Heap) (xs : Cells) (r : Run Status) : Type 0 where
  heap : Heap
  ends : r ≡ done ok heap
  gone : (i : ℕ) → has i xs ≡ true → heap.cell i ≡ none
  same : SameElse xs h heap
  log : heap.freed ≡ owners xs h.freed

free_loop-Freed :
    (h : Heap) (p : Ptr) (xs : Cells) (k : ℕ)
    → length xs < k
    → IsChain h p xs
    → Freed h xs (free_loop k p h)
unfolding free_loop release
free_loop-Freed h p xs zero fuel c = absurd (omega arith)
free_loop-Freed h p [] (suc k) fuel c =
    rw c (record { heap = h; ends = refl; gone = λ i m. cc; same = λ i o. refl; log = refl })
free_loop-Freed h p ((a, b) ∷ xs) (suc k) fuel c =
    let t =
      free_loop-Freed (without h a b c.1) b.next xs k (omega arith)
        (frame-update h b.next xs a none (freed_by h a b c.1) c.3 c.2) in
    record {
      heap = t.heap;
      ends = rw (c.0, load-at h a b c.1) t.ends;
      gone = λ i m. ground (arith, t.gone i, t.same i, ==-self a);
      same = λ i o. ground (arith, t.same i);
      log = t.log;
    }

-- `roar_buffer_free` of a chain gives back every struct of it and no other, and the blocks of
-- exactly those that are not marked ROAR_BUFFER_FLAG_NOFREE, each once and in order. One round more
-- than the chain has structs is enough.
pub free-gone :
    (h : Heap) (a : ℕ) (xs : Cells) (fuel : ℕ)
    → length xs < fuel
    → IsChain h (some a) xs
    → (g : Heap) × (free fuel (some a) h ≡ done ok g)
      × ((i : ℕ) → has i xs ≡ true → g.cell i ≡ none)
      × SameElse xs h g
      × (g.freed ≡ owners xs h.freed)
unfolding free
free-gone h a xs fuel enough c =
    let t = free_loop-Freed h (some a) xs fuel enough c in (t.heap, t.ends, t.gone, t.same, t.log)
