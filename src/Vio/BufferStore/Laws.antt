-- ===== src/Vio/BufferStore/Laws.antt =====
-- What the reads and writes of libroar/vio_buffer_store.c do to the bytes that are kept.
use Prim.Native.Nat.{bit_and}
use roaraudio.Prelude.{
  ℕ, zero, suc, ◌^◌, ◌≤◌, ◌<◌, ◌≡◌, ◌≢◌, refl, sym, ◌∙◌, ap, ap₂, false, ◌||◌, Option, none, some,
  List, [], ◌∷◌, ◌++◌, ◌==◌, length, take, drop, arith, ==-self, ==-ne,
}
use mathlib.Core.Path.{subst}
use mathlib.Core.List.{append-nil}
use roaraudio.Memory.{copy, slice-copy_self, length-copy}
use roaraudio.Buffer.{Buffer, Ptr, Meta, flag_ring, new}
use roaraudio.Buffer.Chain.{Heap, Run, done, update}
use roaraudio.Buffer.Chain.Shape.{
  Cells, has, IsChain, InBlock, AllInBlock, content, frame, frame-update, store-at,
}
use roaraudio.Buffer.Chain.Shift.{shift_out-content}
use roaraudio.Buffer.Chain.Grow.{
  relink, Apart, add-relink, has-relink, has-append, content-relink, content-append,
}
use roaraudio.Vio.BufferStore.{Store, Room, read_from, store_read, store_write, new_at, append}

-- no chain of the store is a ring
abbrev pub AllPlain : Cells → Type 0
AllPlain [] = Unit {0}
AllPlain ((a, b) ∷ xs) = (bit_and b.flags flag_ring ≡ 0) × AllPlain xs

-- `xs` are the structs of what was written, `ys` of what is to be read.
pub record IsStore (h : Heap) (self : Store) (xs ys : Cells) : Type 0 where
  pub written : IsChain h self.in_buf xs
  pub pending : IsChain h self.out_buf ys
  pub written_in : AllInBlock xs
  pub pending_in : AllInBlock ys
  pub apart : Apart xs ys
  pub plain : AllPlain xs

-- An address where no struct stands is in no chain.
has-fresh :
    (h : Heap) (p : Ptr) (xs : Cells) (a : ℕ) → IsChain h p xs → h.cell a ≡ none → has a xs ≡ false
has-fresh h p [] a c free = refl
has-fresh h p ((b, d) ∷ xs) a c free = ground (arith, has-fresh h d.next xs a c.3 free, other)
  where
    other : a ≢ b
    other e = cc (c.1, free)

relink-AllInBlock : (xs : Cells) (q : Ptr) → AllInBlock xs → AllInBlock (relink xs q)
relink-AllInBlock [] q v = tt
relink-AllInBlock ((a, b) ∷ []) q v = v
relink-AllInBlock ((a, b) ∷ c ∷ xs) q v = (v.0, relink-AllInBlock (c ∷ xs) q v.1)

append-AllInBlock : (xs ys : Cells) → AllInBlock xs → AllInBlock ys → AllInBlock (xs ++ ys)
append-AllInBlock [] ys v w = w
append-AllInBlock ((a, b) ∷ xs) ys v w = (v.0, append-AllInBlock xs ys v.1 w)

relink-AllPlain : (xs : Cells) (q : Ptr) → AllPlain xs → AllPlain (relink xs q)
relink-AllPlain [] q v = tt
relink-AllPlain ((a, b) ∷ []) q v = v
relink-AllPlain ((a, b) ∷ c ∷ xs) q v = (v.0, relink-AllPlain (c ∷ xs) q v.1)

append-AllPlain : (xs ys : Cells) → AllPlain xs → AllPlain ys → AllPlain (xs ++ ys)
append-AllPlain [] ys v w = w
append-AllPlain ((a, b) ∷ xs) ys v w = (v.0, append-AllPlain xs ys v.1 w)

-- The buffer that a write makes.
abbrev pub made : Meta → List ℕ → List ℕ → Buffer
made info block buf = record {
  len = length buf;
  user_len = length buf;
  flags = 0;
  block = copy block 0 buf;
  user_off = 0;
  info = info;
  next = none;
}

abbrev pub with_made : Heap → Room → List ℕ → List ℕ → Heap
with_made h room block buf = record h {
  cell = update h.cell room.address (some (made room.info block buf));
}

made-content :
    (room : Room) (block buf : List ℕ)
    → length block ≡ length buf
    → content ((room.address, made room.info block buf) ∷ []) ≡ buf
made-content room block buf size = rw (slice-copy_self block 0 buf (omega arith)) (append-nil buf)

made-InBlock :
    (info : Meta) (block buf : List ℕ)
    → length block ≡ length buf
    → length buf < 2 ^ 62
    → InBlock (made info block buf)
made-InBlock info block buf size small =
    let n = length-copy block 0 buf (omega arith) in (omega (arith, n), omega (arith, n))

-- The write up to the point where the new buffer joins the others.
abbrev unfilled : Meta → List ℕ → List ℕ → Buffer
unfilled info block buf = record (made info block buf) { block = block }

abbrev with_unfilled : Heap → Room → List ℕ → List ℕ → Heap
with_unfilled h room block buf = record h {
  cell = update h.cell room.address (some (unfilled room.info block buf));
}

abbrev filled : Heap → Room → List ℕ → List ℕ → Heap
filled h room block buf = with_made (with_unfilled h room block buf) room block buf

store_write-filled :
    (fuel : ℕ) (h : Heap) (room : Room) (block buf : List ℕ) (self : Store)
    → length buf ≢ 0
    → store_write fuel (some room) (some block) buf self h
      ≡ append fuel room.address (length buf) self (filled h room block buf)
unfolding store_write new_at new
store_write-filled fuel h room block buf self more = rw (
  ==-ne (length buf) 0 more,
  store-at (with_unfilled h room block buf) room.address (unfilled room.info block buf) (rw ==-self)
      (made room.info block buf),
)

-- A chain of the heap before is one of the heap with the new buffer.
filled-IsChain :
    (h : Heap) (room : Room) (block buf : List ℕ) (p : Ptr) (xs : Cells)
    → h.cell room.address ≡ none
    → IsChain h p xs
    → IsChain (filled h room block buf) p xs
filled-IsChain h room block buf p xs free c =
    let out = has-fresh h p xs room.address c free in
    frame-update (with_unfilled h room block buf) p xs room.address
      (some (made room.info block buf)) h.freed
      (frame-update h p xs room.address (some (unfilled room.info block buf)) h.freed c out) out

-- What a write leaves.
abbrev Written : Heap → Store → Cells → Cells → List ℕ → Run (Option ℕ × Store) → Type 0
Written h self xs ys buf r =
    (g : Heap) × (self' : Store) × (zs : Cells) × (r ≡ done (some (length buf), self') g)
    × IsStore g self' zs ys
    × (content zs ≡ content xs ++ buf)

joined-Apart :
    (h : Heap) (self : Store) (xs ys : Cells) (a : ℕ) (b : Buffer) (room : Room)
    (block buf : List ℕ)
    → IsStore h self ((a, b) ∷ xs) ys
    → h.cell room.address ≡ none
    → Apart
        (relink ((a, b) ∷ xs) (some room.address)
          ++ ((room.address, made room.info block buf) ∷ []))
        ys
joined-Apart h self xs ys a b room block buf v free i m =
    let e =
      has-append i (relink ((a, b) ∷ xs) (some room.address))
        ((room.address, made room.info block buf) ∷ [])
      ∙ ap (λ t. t || ((i == room.address) || false))
          (has-relink i ((a, b) ∷ xs) (some room.address)) in
    ground (arith, v.apart i, sym e ∙ m, has-fresh h self.out_buf ys room.address v.pending free)

append-Written :
    (fuel : ℕ) (h : Heap) (room : Room) (block buf : List ℕ) (self : Store) (xs ys : Cells)
    → IsStore h self xs ys
    → h.cell room.address ≡ none
    → length xs ≤ fuel
    → length block ≡ length buf
    → length buf < 2 ^ 62
    → Written h self xs ys buf
        (append fuel room.address (length buf) self (filled h room block buf))
unfolding append
append-Written fuel h room block buf self [] ys v free enough size small = (
  filled h room block buf,
  record self { in_buf = some room.address },
  (room.address, made room.info block buf) ∷ [],
  rw v.written,
  record {
    written = (refl, rw ==-self, refl, refl);
    pending = filled-IsChain h room block buf self.out_buf ys free v.pending;
    written_in = (made-InBlock room.info block buf size small, tt);
    pending_in = v.pending_in;
    apart = λ i m. ground (arith, has-fresh h self.out_buf ys room.address v.pending free);
    plain = (refl, tt);
  },
  made-content room block buf size,
)
append-Written fuel h room block buf self ((a, b) ∷ xs) ys v free enough size small =
    let new_cell : Cells = (room.address, made room.info block buf) ∷ [] in
    let f = filled h room block buf in
    let c = filled-IsChain h room block buf self.in_buf ((a, b) ∷ xs) free v.written in
    let old = has-fresh h self.in_buf ((a, b) ∷ xs) room.address v.written free in
    let t =
      add-relink f a b xs new_cell (some room.address) fuel (omega arith) (refl, c.1, c.2, c.3)
        (refl, rw ==-self, refl, refl) (λ i m. ground (arith, old)) v.plain.0
        (ground (arith, old)) in
    let g = t.0 in
    let zs = relink ((a, b) ∷ xs) (some room.address) ++ new_cell in
    (
      g,
      self,
      zs,
      rw (c.0, t.1),
      record {
        written = subst (λ p. IsChain g p zs) (sym c.0) t.2;
        pending =
            frame f g self.out_buf ys
              (filled-IsChain h room block buf self.out_buf ys free v.pending)
              (λ i m. t.3 i (ground (arith, v.apart i)));
        written_in =
            append-AllInBlock (relink ((a, b) ∷ xs) (some room.address)) new_cell
              (relink-AllInBlock ((a, b) ∷ xs) (some room.address) v.written_in)
              (made-InBlock room.info block buf size small, tt);
        pending_in = v.pending_in;
        apart = λ i m. joined-Apart h self xs ys a b room block buf v free i m;
        plain =
            append-AllPlain (relink ((a, b) ∷ xs) (some room.address)) new_cell
              (relink-AllPlain ((a, b) ∷ xs) (some room.address) v.plain) (refl, tt);
      },
      content-append (relink ((a, b) ∷ xs) (some room.address)) new_cell
          ∙ ap₂ (λ l m. l ++ m) (content-relink ((a, b) ∷ xs) (some room.address))
              (made-content room block buf size),
    )

store_write-nothing :
    (fuel : ℕ) (h : Heap) (room : Room) (block : List ℕ) (self : Store)
    → store_write fuel (some room) (some block) [] self h ≡ done (some 0, self) h
unfolding store_write
store_write-nothing fuel h room block self = refl

-- `roar_vio_buffer_store_write` with memory at hand takes all that it is given, behind what was
-- written before; what is to be read is untouched. A round for each buffer written is enough.
pub store_write-append :
    (fuel : ℕ) (h : Heap) (room : Room) (block buf : List ℕ) (self : Store) (xs ys : Cells)
    → IsStore h self xs ys
    → h.cell room.address ≡ none
    → length xs ≤ fuel
    → length block ≡ length buf
    → length buf < 2 ^ 62
    → Written h self xs ys buf (store_write fuel (some room) (some block) buf self h)
store_write-append fuel h room block [] self xs ys v free enough size small =
    (h, self, xs, store_write-nothing fuel h room block self, v, sym (append-nil (content xs)))
store_write-append fuel h room block (x ∷ buf) self xs ys v free enough size small =
    subst (Written h self xs ys (x ∷ buf))
      (sym (store_write-filled fuel h room block (x ∷ buf) self (omega arith)))
      (append-Written fuel h room block (x ∷ buf) self xs ys v free enough size small)

store_read-more :
    (fuel : ℕ) (h : Heap) (count : ℕ) (self : Store) (p : Ptr)
    → self.out_buf ≡ p
    → store_read fuel (suc count) self h ≡ read_from fuel (suc count) self p h
unfolding store_read
store_read-more fuel h count self p e =
    let more : (suc count == 0) ≡ false = ground arith in
    rw more (ap (λ q. read_from fuel (suc count) self q h) e)

-- `roar_vio_buffer_store_read` gives the first `count` bytes that are to be read, fewer only if there
-- are no more, and leaves the rest; what was written is untouched. One round more than there are
-- buffers is enough.
pub store_read-take :
    (fuel : ℕ) (h : Heap) (count : ℕ) (self : Store) (xs ys : Cells)
    → IsStore h self xs ys
    → length ys < fuel
    → (g : Heap) × (self' : Store) × (zs : Cells) × (store_read fuel count self h
        ≡ done (some (take count (content ys)), self') g)
      × IsStore g self' xs zs
      × (content zs ≡ drop count (content ys))
unfolding store_read
store_read-take fuel h zero self xs ys v enough = (h, self, ys, refl, v, refl)
store_read-take fuel h (suc count) self xs [] v enough =
    (h, self, [], store_read-more fuel h count self none v.pending, v, refl)
store_read-take fuel h (suc count) self xs ((a, b) ∷ ys) v enough =
    let c = v.pending in
    let t =
      shift_out-content h a ((a, b) ∷ ys) fuel (suc count) (omega arith) (refl, c.1, c.2, c.3)
        v.pending_in in
    (
      t.0,
      record self { out_buf = t.1.buf },
      t.2,
      store_read-more fuel h count self (some a) c.0 ∙ rw (t.3, t.4),
      record {
        written = frame h t.0 self.in_buf xs v.written (λ i m. t.8 i (v.apart i m));
        pending = t.5;
        written_in = v.written_in;
        pending_in = t.6;
        apart = λ i m. t.9 i (v.apart i m);
        plain = v.plain;
      },
      t.7,
    )
