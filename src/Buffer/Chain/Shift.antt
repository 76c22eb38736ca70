-- ===== src/Buffer/Chain/Shift.antt =====
-- roar_buffer_shift_out of libroar/buffer.c: it takes the first bytes of a chain.
use roaraudio.Prelude.{
  ℕ, zero, suc, ◌+◌, ◌-◌, ◌≤◌, ◌<◌, ◌≡◌, refl, sym, ◌∙◌, ap, true, false, none, some, List, [], ◌∷◌,
  ◌++◌, length, arith, take, drop, ltb, ==-self,
}
use mathlib.Core.List.{append-nil, append_assoc}
use native.Mathlib.Decide.{dec_lt}
use roaraudio.Status.{ok}
use roaraudio.Memory.{slice, length-slice}
use roaraudio.Prelude.TakeDrop.{
  take-append, take-append_past, take-take, drop-append, drop-append_past, drop-take, drop-drop,
}
use roaraudio.Buffer.{Buffer, Ptr, set_offset}
use roaraudio.Buffer.Chain.{Heap, update, Run, done, Shifted, shift_step, shift_loop, shift_out}
use roaraudio.Buffer.Chain.Shape.{
  Cells, has, IsChain, InBlock, AllInBlock, content, SameElse, frame-update, load-at, store-at,
  delete-at, freed_by, without,
}

-- a buffer of which the first `n` bytes are taken
rest_of : Buffer → ℕ → Buffer
rest_of b n = record b { user_len = b.user_len - n; user_off = b.user_off + n }

module _ (b : Buffer) (n : ℕ) (inside : InBlock b) (fits : n < b.user_len) where
  set_offset-rest_of : set_offset (some b) n ≡ (ok, some (rest_of b n))
  unfolding set_offset rest_of
  set_offset-rest_of = ground arith

  rest_of-InBlock : InBlock (rest_of b n)
  unfolding rest_of
  rest_of-InBlock = omega arith

  slice-part : n ≤ length (slice b.block b.user_off b.user_len)
  slice-part = omega (arith, length-slice b.block b.user_off b.user_len (omega arith))

  take-part :
      (rest : List ℕ)
      → take n (slice b.block b.user_off b.user_len ++ rest) ≡ slice b.block b.user_off n
  take-part rest =
      take-append (slice b.block b.user_off b.user_len) rest n (slice-part)
      ∙ unfold slice in take-take (drop b.user_off b.block) n b.user_len (omega arith)

  drop-part :
      (rest : List ℕ)
      → drop n (slice b.block b.user_off b.user_len ++ rest)
        ≡ slice b.block (b.user_off + n) (b.user_len - n) ++ rest
  drop-part rest =
      drop-append (slice b.block b.user_off b.user_len) rest n (slice-part)
      ∙ ap (λ l. l ++ rest)
          (unfold slice in
            drop-take (drop b.user_off b.block) n b.user_len (b.user_len - n) (omega arith)
            ∙ ap (take (b.user_len - n)) (drop-drop b.block b.user_off n (b.user_off + n) refl))

-- What the loop of roar_buffer_shift_out leaves of the chain `xs`, started with `todo` bytes to take.
record Took (h : Heap) (xs : Cells) (todo : ℕ) (out : List ℕ) (r : Run Shifted) : Type 0 where
  heap : Heap
  left : Ptr
  cells : Cells
  ends : r ≡ done (record { out = out ++ take todo (content xs); buf = left }) heap
  chain : IsChain heap left cells
  inside : AllInBlock cells
  rest : content cells ≡ drop todo (content xs)
  same : SameElse xs h heap
  within : (i : ℕ) → has i xs ≡ false → has i cells ≡ false

module _ (h : Heap) (a : ℕ) (b : Buffer) (n : ℕ) (at : h.cell a ≡ some b) where
  -- A round at a struct that has more bytes than are wanted.
  step_part :
      InBlock b
      → n < b.user_len
      → shift_step n a h
        ≡ done
            (slice b.block b.user_off n, 0, some a)
            (record h { cell = update h.cell a (some (rest_of b n)) })
  unfolding shift_step
  step_part inside fits =
      let test : ltb n b.user_len ≡ true = ground arith in
      rw (
        load-at h a b at,
        test,
        set_offset-rest_of b n inside fits,
        store-at h a b at (rest_of b n),
      )

  -- A round at a struct that has no more bytes than are wanted.
  step_whole :
      b.user_len ≤ n
      → shift_step n a h
        ≡ done (slice b.block b.user_off b.user_len, n - b.user_len, b.next) (without h a b at)
  unfolding shift_step
  step_whole fits =
      let test : ltb n b.user_len ≡ false = ground arith in
      rw (load-at h a b at, test, delete-at h a b at)

loop_ends :
    (k : ℕ) (cur : Ptr) (out : List ℕ) (h : Heap)
    → 0 < k
    → shift_loop k 0 cur out h ≡ done (record { out = out; buf = cur }) h
unfolding shift_loop
loop_ends zero cur out h pos = absurd (omega arith)
loop_ends (suc k) cur out h pos = refl

-- the end of the loop, with nothing more to take
Took-nothing :
    (h : Heap) (xs : Cells) (k : ℕ) (p : Ptr) (out : List ℕ)
    → 0 < k
    → IsChain h p xs
    → AllInBlock xs
    → Took h xs 0 out (shift_loop k 0 p out h)
Took-nothing h xs k p out pos c v = record {
  heap = h;
  left = p;
  cells = xs;
  ends = rw append-nil (loop_ends k p out h pos);
  chain = c;
  inside = v;
  rest = refl;
  same = λ a o. refl;
  within = λ i o. o;
}

-- the end of the loop at the end of the chain
Took-empty :
    (h : Heap) (k todo : ℕ) (out : List ℕ)
    → Took h [] (suc todo) out (shift_loop (suc k) (suc todo) none out h)
unfolding shift_loop
Took-empty h k todo out = record {
  heap = h;
  left = none;
  cells = [];
  ends = rw append-nil;
  chain = refl;
  inside = tt;
  rest = refl;
  same = λ a o. refl;
  within = λ i o. o;
}

module _ (h : Heap) (a : ℕ) (b : Buffer) (xs : Cells) (k todo : ℕ) (out : List ℕ)
    (at : h.cell a ≡ some b) (apart : has a xs ≡ false) (c : IsChain h b.next xs)
    (v : InBlock b × AllInBlock xs) where
  -- The loop at a struct that has more bytes than are wanted.
  Took-part :
      suc todo < b.user_len
      → 0 < k
      → Took h ((a, b) ∷ xs) (suc todo) out (shift_loop (suc k) (suc todo) (some a) out h)
  unfolding shift_loop rest_of
  Took-part fits pos =
      let heap : Heap = record h { cell = update h.cell a (some (rest_of b (suc todo))) } in
      record {
        heap = heap;
        left = some a;
        cells = (a, rest_of b (suc todo)) ∷ xs;
        ends =
            rw (step_part h a b (suc todo) at v.0 fits, loop_ends k (some a) _ heap pos)
              (ap (λ o. done (record { out = out ++ o; buf = some a }) heap)
                (sym (take-part b (suc todo) v.0 fits (content xs))));
        chain = (
          refl,
          rw ==-self,
          apart,
          frame-update h b.next xs a (some (rest_of b (suc todo))) h.freed c apart,
        );
        inside = (rest_of-InBlock b (suc todo) v.0 fits, v.1);
        rest = sym (drop-part b (suc todo) v.0 fits (content xs));
        same = λ i o. ground arith;
        within = λ i o. o;
      }

  -- The loop at a struct that is taken whole, from what it does with the rest of the chain.
  Took-whole :
      b.user_len ≤ suc todo
      → Took
          (without h a b at)
          xs
          (suc todo - b.user_len)
          (out ++ slice b.block b.user_off b.user_len)
          (shift_loop k
            (suc todo - b.user_len)
            b.next
            (out ++ slice b.block b.user_off b.user_len)
            (without h a b at))
      → Took h ((a, b) ∷ xs) (suc todo) out (shift_loop (suc k) (suc todo) (some a) out h)
  unfolding shift_loop
  Took-whole fits t =
      let bytes = slice b.block b.user_off b.user_len in
      let size : length bytes ≡ b.user_len = length-slice b.block b.user_off b.user_len v.0.0 in
      let more = suc todo - b.user_len in
      record {
        heap = t.heap;
        left = t.left;
        cells = t.cells;
        ends = rw (step_whole h a b (suc todo) at fits) (
            t.ends
            ∙ ap (λ o. done (record { out = o; buf = t.left }) t.heap)
                (append_assoc out bytes (take more (content xs))
                  ∙ ap (λ o. out ++ o)
                      (sym (take-append_past bytes (content xs) (suc todo) more (omega arith)))));
        chain = t.chain;
        inside = t.inside;
        rest = t.rest ∙ sym (drop-append_past bytes (content xs) (suc todo) more (omega arith));
        same = λ i o. ground (arith, t.same i);
        within = λ i o. t.within i (ground arith);
      }

shift_loop-Took :
    (xs : Cells) (k todo : ℕ) (p : Ptr) (out : List ℕ) (h : Heap)
    → length xs < k
    → IsChain h p xs
    → AllInBlock xs
    → Took h xs todo out (shift_loop k todo p out h)
shift_loop-Took xs zero todo p out h fuel c v = absurd (omega arith)
shift_loop-Took xs (suc k) zero p out h fuel c v = Took-nothing h xs (suc k) p out (omega arith) c v
shift_loop-Took [] (suc k) (suc todo) p out h fuel c v = rw c (Took-empty h k todo out)
shift_loop-Took ((a, b) ∷ xs) (suc k) (suc todo) p out h fuel c v =
    rw c.0 (elim (dec_lt (suc todo) b.user_len) [
      | yes fits ↦ Took-part h a b xs k todo out c.1 c.2 c.3 v fits (omega arith)
      | no fits ↦ Took-whole h a b xs k todo out c.1 c.2 c.3 v (omega arith) (
          shift_loop-Took xs k (suc todo - b.user_len) b.next
            (out ++ slice b.block b.user_off b.user_len) (without h a b c.1) (omega arith)
            (frame-update h b.next xs a none (freed_by h a b c.1) c.3 c.2) v.1)
    ])

-- `roar_buffer_shift_out` of a chain, the user's part of each struct lying within its block, gives
-- its first `len` bytes, fewer only if the chain has no more, and leaves in `*buf` a chain of the
-- bytes that follow them, of structs of the first chain; it changes no other struct. One round more
-- than the chain has structs is enough.
pub shift_out-content :
    (h : Heap) (a : ℕ) (xs : Cells) (fuel len : ℕ)
    → length xs < fuel
    → IsChain h (some a) xs
    → AllInBlock xs
    → (g : Heap) × (s : Shifted) × (ys : Cells) × (shift_out fuel (some a) len h ≡ done (some s) g)
      × (s.out ≡ take len (content xs))
      × IsChain g s.buf ys
      × AllInBlock ys
      × (content ys ≡ drop len (content xs))
      × SameElse xs h g
      × ((i : ℕ) → has i xs ≡ false → has i ys ≡ false)
unfolding shift_out
shift_out-content h a xs fuel len enough c v =
    let t = shift_loop-Took xs fuel len (some a) [] h enough c v in
    (
      t.heap,
      record { out = take len (content xs); buf = t.left },
      t.cells,
      rw t.ends,
      refl,
      t.chain,
      t.inside,
      t.rest,
      t.same,
      t.within,
    )
