-- ===== src/Malloc/Headers.antt =====
-- The headers of a block in src/malloc.c, and the way back from an address to its block.
use mariobr_os.Base.{
  ℕ, ◌+◌, ◌-◌, ◌*◌, ◌/◌, ◌%◌, ◌^◌, ◌≤◌, ◌<◌, ◌≡◌, ◌≢◌, ◌∙◌, inr, ap, Bool, true, false, is_true,
  to_int, arith, sub32,
}
use mariobr_os.Memory.{Bytes, load32, store32}
use mariobr_os.Memory.Laws.{
  Apart, load32-store32_self, load32-store32_mod, load32-store32-Apart, store32-out,
}
use mariobr_os.Malloc.{
  Heap, get_size, get_used, get_end_header, set_size, set_used, set_block, get_next_block,
  get_prev_block,
}

-- The word of a header.
abbrev pub header : ℕ → Bool → ℕ
header size used = to_int used * 2 ^ 31 + size / 2

used_bit : (u : Bool) (s : ℕ) → s < 2 ^ 31 → is_true ((to_int u * 2 ^ 31 + s) / 2 ^ 31) ≡ u
used_bit true s h = ap is_true {y = 1} (omega arith)
used_bit false s h = ap is_true {y = 0} (omega arith)

module _ (b size : ℕ) (used : Bool) (m : Bytes) (small : size < 2 ^ 32) where
  header-lt : header size used < 2 ^ 32
  header-lt = ground arith

  abbrev sized : Bytes
  sized = set_size b size m

  abbrev first_done : Bytes
  first_done = set_used b used (set_size b size m)

  load-set_size : load32 (set_size b size m) b % 2 ^ 31 ≡ size / 2
  unfolding set_size
  load-set_size =
      rw (load32-store32_mod m b (load32 m b / 2 ^ 31 * 2 ^ 31 + size / 2 % 2 ^ 31)) (omega arith)

  first_header : load32 first_done b ≡ header size used
  unfolding set_used
  first_header =
      load32-store32_mod sized b (to_int used * 2 ^ 31 + load32 sized b % 2 ^ 31)
      ∙ ground (arith, load-set_size)

  size_of-header :
      (m' : Bytes) (a : ℕ) → size % 2 ≡ 0 → load32 m' a ≡ header size used → get_size m' a ≡ size
  unfolding get_size
  size_of-header m' a even e = rw e (ground arith)

  used_of-header : (m' : Bytes) (a : ℕ) → load32 m' a ≡ header size used → get_used m' a ≡ used
  unfolding get_used
  used_of-header m' a e = rw e (used_bit used (size / 2) (omega arith))

  module _ (even : size % 2 ≡ 0) (fits : 8 ≤ size) (inside : b + size < 2 ^ 32) where
    end_header_place : get_end_header first_done b ≡ b + size - 4
    unfolding get_end_header
    end_header_place = rw (size_of-header first_done b even first_header) (omega arith)

    set_block-eq : set_block b size used m ≡ store32 first_done (b + size - 4) (header size used)
    unfolding set_block
    set_block-eq = rw (end_header_place, first_header)

    pub header-set_block : load32 (set_block b size used m) b ≡ header size used
    header-set_block = rw set_block-eq (
        load32-store32-Apart first_done (b + size - 4) (header size used) b (inr (omega arith))
        ∙ first_header)

    pub end_header-set_block : load32 (set_block b size used m) (b + size - 4) ≡ header size used
    end_header-set_block =
        rw set_block-eq (load32-store32_self first_done (b + size - 4) (header size used) header-lt)

    set_block-out :
        (j : ℕ) → Apart b 4 j 1 → Apart (b + size - 4) 4 j 1 → set_block b size used m j ≡ m j
    unfolding set_size set_used
    set_block-out j h k = rw set_block-eq (
        store32-out first_done (b + size - 4) (header size used) j k
        ∙ store32-out sized b (to_int used * 2 ^ 31 + load32 sized b % 2 ^ 31) j h
        ∙ store32-out m b (load32 m b / 2 ^ 31 * 2 ^ 31 + size / 2 % 2 ^ 31) j h)

store32-top : (m : Bytes) (a v : ℕ) → store32 m a v (a + 3) ≡ v / 2 ^ 24 % 2 ^ 8
unfolding store32
store32-top m a v = ground arith

-- The highest byte of the header of a used block is not 0.
pub set_block-top :
    (b size : ℕ) (m : Bytes)
    → size % 2 ≡ 0
    → 8 ≤ size
    → b + size < 2 ^ 32
    → set_block b size true m (b + 3) ≢ 0
unfolding set_used
set_block-top b size m even fits inside =
    let v : ℕ = 1 * 2 ^ 31 + load32 (set_size b size m) b % 2 ^ 31 in
    let e = ap (λ f. f (b + 3)) (set_block-eq b size true m (omega arith) even fits inside) in
    let out =
      store32-out (first_done b size true m (omega arith)) (b + size - 4) (header size true) (b + 3)
        (inr (omega arith)) in
    omega (arith, e, out, store32-top (set_size b size m) b v)

-- After `set_block` the block has the given size and mark; the next block begins where it ends, and
-- from there the way back leads to it, if it has an even size and lies inside the heap.
pub set_block-neighbours :
    (b size : ℕ) (used : Bool) (h : Heap)
    → size % 2 ≡ 0
    → 8 ≤ size
    → b + size < 2 ^ 32
    → h.start_of_heap ≤ b
    → b + size < h.unallocated_mem
    → let h1 : Heap = record h { mem = set_block b size used h.mem } in
      (get_size h1.mem b ≡ size)
      × (get_used h1.mem b ≡ used)
      × (get_next_block h1 b ≡ b + size)
      × (get_prev_block h1 (b + size) ≡ b)
unfolding get_next_block get_prev_block
set_block-neighbours b size used h even fits inside low high =
    let m1 : Bytes = set_block b size used h.mem in
    let small : size < 2 ^ 32 = omega arith in
    let first = header-set_block b size used h.mem small even fits inside in
    let size_first = size_of-header b size used h.mem small m1 b even first in
    let size_end =
      size_of-header b size used h.mem small m1 (b + size - 4) even
        (end_header-set_block b size used h.mem small even fits inside) in
    let before : sub32 (b + size) 4 ≡ b + size - 4 = omega arith in
    (
      size_first,
      used_of-header b size used h.mem small m1 b first,
      rw size_first (ground arith),
      rw (before, size_end) (ground arith),
    )
