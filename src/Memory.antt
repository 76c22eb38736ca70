-- ===== src/Memory.antt =====
-- Blocks of memory as lists of bytes, and `size_t` arithmetic.
use roaraudio.Prelude.{
  ℕ, ◌+◌, ◌-◌, ◌%◌, ◌^◌, ◌≤◌, ◌≡◌, ap, ◌∙◌, List, ◌++◌, arith, length, take, drop, length-append,
  length-take, length-drop,
}
use roaraudio.Prelude.TakeDrop.{
  take-append, drop-append, take_all, drop-append_past, take-drop-take, drop-drop,
}

abbrev pub size_mod : ℕ
size_mod = 2 ^ 64

-- `size_t` addition and subtraction wrap.
abbrev pub add_size : ℕ → ℕ → ℕ
add_size a b = (a + b) % size_mod

abbrev pub sub_size : ℕ → ℕ → ℕ
sub_size a b = (a + size_mod - b) % size_mod

-- the `n` bytes from `off` on
unfoldable pub slice : List ℕ → ℕ → ℕ → List ℕ
slice mem off n = take n (drop off mem)

-- `memcpy(mem + off, src, length src)`
unfoldable pub copy : List ℕ → ℕ → List ℕ → List ℕ
copy mem off src = take off mem ++ (src ++ drop (off + length src) mem)

pub length-slice : (mem : List ℕ) (off n : ℕ) → off + n ≤ length mem → length (slice mem off n) ≡ n
unfolding slice
length-slice mem off n h = omega (arith, length-take n (drop off mem), length-drop off mem)

pub length-copy :
    (mem : List ℕ) (off : ℕ) (src : List ℕ)
    → off + length src ≤ length mem
    → length (copy mem off src) ≡ length mem
unfolding copy
length-copy mem off src h = omega (
  arith,
  length-append (take off mem) (src ++ drop (off + length src) mem),
  length-append src (drop (off + length src) mem),
  length-take off mem,
  length-drop (off + length src) mem,
)

-- What is read where something was copied.
pub slice-copy_self :
    (mem : List ℕ) (off : ℕ) (src : List ℕ)
    → off + length src ≤ length mem
    → slice (copy mem off src) off (length src) ≡ src
unfolding slice copy
slice-copy_self mem off src h =
    let front : off ≡ length (take off mem) + 0 = omega (arith, length-take off mem) in
    ap (take (length src))
      (drop-append_past (take off mem) (src ++ drop (off + length src) mem) off 0 front)
    ∙ take-append src (drop (off + length src) mem) (length src) (omega arith)
    ∙ take_all src (length src) (omega arith)

-- What is read in front of it.
pub slice-copy_before :
    (mem : List ℕ) (off : ℕ) (src : List ℕ) (i n : ℕ)
    → off + length src ≤ length mem
    → i + n ≤ off
    → slice (copy mem off src) i n ≡ slice mem i n
unfolding slice copy
slice-copy_before mem off src i n h before =
    let front : length (take off mem) ≡ off = omega (arith, length-take off mem) in
    let room : n ≤ length (drop i (take off mem)) = omega (arith, length-drop i (take off mem)) in
    ap (take n) (drop-append (take off mem) (src ++ drop (off + length src) mem) i (omega arith))
    ∙ take-append (drop i (take off mem)) (src ++ drop (off + length src) mem) n room
    ∙ take-drop-take mem off i n before

-- What is read behind it.
pub slice-copy_after :
    (mem : List ℕ) (off : ℕ) (src : List ℕ) (i n : ℕ)
    → off + length src ≤ length mem
    → off + length src ≤ i
    → slice (copy mem off src) i n ≡ slice mem i n
unfolding slice copy
slice-copy_after mem off src i n h after =
    let rest = drop (off + length src) mem in
    let front : i ≡ length (take off mem) + (i - off) = omega (arith, length-take off mem) in
    ap (take n) (
      drop-append_past (take off mem) (src ++ rest) i (i - off) front
      ∙ drop-append_past src rest (i - off) (i - off - length src) (omega arith)
      ∙ drop-drop mem (off + length src) (i - off - length src) i (omega arith))

-- `mem'` is `mem` but for the bytes from `lo` up to `hi`.
pub record SameOutside (lo hi : ℕ) (mem mem' : List ℕ) : Type 0 where
  pub size : length mem' ≡ length mem
  pub before : (i n : ℕ) → i + n ≤ lo → slice mem' i n ≡ slice mem i n
  pub after : (i n : ℕ) → hi ≤ i → slice mem' i n ≡ slice mem i n

pub copy-SameOutside :
    (lo hi : ℕ) (mem : List ℕ) (off : ℕ) (src : List ℕ)
    → hi ≤ length mem
    → lo ≤ off
    → off + length src ≤ hi
    → SameOutside lo hi mem (copy mem off src)
copy-SameOutside lo hi mem off src inside from upto = record {
  size = length-copy mem off src (omega arith);
  before = λ i n h. slice-copy_before mem off src i n (omega arith) (omega arith);
  after = λ i n h. slice-copy_after mem off src i n (omega arith) (omega arith);
}

pub SameOutside-trans :
    {lo hi : ℕ} {a b c : List ℕ}
    → SameOutside lo hi a b
    → SameOutside lo hi b c
    → SameOutside lo hi a c
SameOutside-trans p q = record {
  size = q.size ∙ p.size;
  before = λ i n h. q.before i n h ∙ p.before i n h;
  after = λ i n h. q.after i n h ∙ p.after i n h;
}
