-- ===== src/Malloc/Pointers.antt =====
-- The addresses that `mem_alloc_aligned` of src/malloc.c hands out, and the way back of `mem_free`.
use mariobr_os.Base.{
  ℕ, zero, suc, ◌+◌, ◌-◌, ◌%◌, ◌^◌, ◌≤◌, ◌<◌, ◌≡◌, ◌≢◌, ◌∙◌, ap, true, arith, add32, sub32, eq→==,
  ne→==,
}
use mariobr_os.Math.{ceil_multiple, max_u32}
use mariobr_os.Math.Rounding.{ceil_multiple_bounds}
use mariobr_os.Memory.{Bytes, mem_set}
use mariobr_os.Memory.Copies.{mem_set-at}
use mariobr_os.Malloc.{Heap, set_block, find_header}
use mariobr_os.Malloc.Headers.{set_block-top}
use mariobr_os.Malloc.Allocation.{block_size_for, pad_block}

-- The way back over zeros.
find_header-zeros :
    (n p q : ℕ) (m : Bytes)
    → p ≡ q + n
    → ((j : ℕ) → q ≤ j → j < p → m j ≡ 0)
    → 0 < q
    → m (q - 1) ≢ 0
    → find_header m p ≡ q
unfolding find_header
find_header-zeros n zero q m e z pos ne = absurd (omega arith)
find_header-zeros zero (suc p) q m e z pos ne =
    let last : m p ≢ 0 = λ (k : m p ≡ 0). ne (ap m {x = q - 1} {y = p} (omega arith) ∙ k) in
    rw (ne→== (m p) 0 last, find_header) (omega arith)
find_header-zeros (suc n) (suc p) q m e z pos ne =
    rw (eq→== (m p) 0 (z p (omega arith) (omega arith)), find_header)
      (find_header-zeros n p q m (omega arith) (λ j k l. z j k (omega arith)) pos ne)

max_u32_bounds : (a b : ℕ) → (a ≤ max_u32 a b) × (max_u32 a b ≤ a + b)
unfolding max_u32
max_u32_bounds a b = ground arith

-- The block for a request leaves room for the header, any padding, the memory and the end, if the
-- sum fits 32 bits.
pub block_size_for-le :
    (size alignment : ℕ)
    → 0 < alignment
    → size + alignment + 25 < 2 ^ 32
    → size + alignment + 7 ≤ block_size_for size alignment
unfolding block_size_for
block_size_for-le size alignment pos h =
    let asked : ℕ = add32 (add32 (sub32 (add32 4 alignment) 1) size) 4 in
    let e : asked ≡ size + alignment + 7 = omega arith in
    let (above, below) = max_u32_bounds asked 16 in
    omega (
      arith,
      e,
      above,
      below,
      ceil_multiple_bounds (max_u32 asked 16) 2 (omega arith) (omega (arith, e, below)),
    )

before_padding : (b n : ℕ) (m : Bytes) → mem_set (b + 4) 0 n m (b + 4 - 1) ≡ 0 → m (b + 3) ≡ 0
before_padding b n m e =
    let q : b + 4 - 1 ≡ b + 3 = omega arith in
    ground (arith, mem_set-at (b + 4) 0 n m (b + 3), rw q at e)

-- The address that is handed out for a used block of sufficient size is a multiple of the alignment,
-- the memory behind it ends before the end of the block, and going back over the padding from it
-- finds the header of the block, as `mem_free` does.
pub pad_block-find_header :
    (b block_size size alignment : ℕ) (h : Heap)
    → 0 < alignment
    → block_size % 2 ≡ 0
    → size + alignment + 7 ≤ block_size
    → b + block_size < 2 ^ 32
    → let r : ℕ × Heap =
        pad_block b alignment (record h { mem = set_block b block_size true h.mem }) in
      (r.0 % alignment ≡ 0)
      × (b + 4 ≤ r.0)
      × (r.0 + size + 4 ≤ b + block_size)
      × (find_header r.1.mem (r.0) ≡ b + 4)
unfolding pad_block
pad_block-find_header b block_size size alignment h pos even fits inside =
    let m1 : Bytes = set_block b block_size true h.mem in
    let at : add32 b 4 ≡ b + 4 = omega arith in
    let p = ceil_multiple (b + 4) alignment in
    let bounds = ceil_multiple_bounds (b + 4) alignment pos (omega arith) in
    let len : sub32 p (b + 4) ≡ p - (b + 4) = omega (arith, bounds.1, bounds.2) in
    rw (at, len)
      (
        bounds.0,
        bounds.1,
        omega (arith, bounds.1, bounds.2),
        find_header-zeros (p - (b + 4)) p (b + 4) (mem_set (b + 4) 0 (p - (b + 4)) m1)
            (omega (arith, bounds.1))
            (λ j k l. ground (arith, mem_set-at (b + 4) 0 (p - (b + 4)) m1 j)) (omega arith)
            (λ e.
              set_block-top b block_size h.mem even (omega arith) inside
                (before_padding b (p - (b + 4)) m1 e)),
      )
