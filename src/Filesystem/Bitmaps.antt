-- ===== src/Filesystem/Bitmaps.antt =====
-- The search of `allocate_block` of src/filesystem.c through the bitmaps of the groups.
use mariobr_os.Base.{
  ℕ, zero, suc, ◌+◌, ◌/◌, ◌%◌, ◌^◌, ◌≤◌, ◌<◌, ◌≡◌, ◌⊎◌, inl, inr, refl, ap, sym, ◌∙◌, ◌*◌, get_or,
  zero, suc, false, ◌==◌, is_true, arith, add32, Bool-cases, ==→ne, ==→eq, subst,
}
use mariobr_os.Memory.{Bytes, load32}
use mariobr_os.Base.Bits.{bit, bit-lt-two}
use mariobr_os.Disk.{read_lba, sectors, address}
use mariobr_os.Disk.Reads.{read_lba-copied}
use mariobr_os.Bitset.Access.{get_bit-bit}
use mariobr_os.Bitset.{all_ones, word, get_bit, param_ffb}
use mariobr_os.Bitset.Free.{param_ffb-free}
use mariobr_os.Filesystem.Volume.{Fs, block, block_bitmap, unalloc_block}
use mariobr_os.Filesystem.Groups.{words_from, bitset_of, find_free_block}

-- The bitmap of a group, read over what the buffer holds.
abbrev pub bitmap : Fs → ℕ → Bytes → Bytes
bitmap s k buffer = read_lba (block (block_bitmap s k) s) s.block_factor s.disk buffer

-- How a search ends: at a block whose bit is not set in the bitmap of its group, which the buffer
-- holds, or behind the last group, at position 0 unless the last group has no free block.
abbrev pub FoundBlock : Fs → ℕ → ℕ × ℕ × Fs → Type 0
FoundBlock s groups r =
    ((r.0 < groups)
      × (r.1 < s.spb.block_per_group)
      × ((buffer : Bytes) × (r.2 ≡ record s { std_buf = bitmap s (r.0) buffer }))
      × (get_bit (bitset_of s.spb.block_per_group r.2.std_buf) (r.1) ≡ false))
    ⊎ ((r.0 ≡ groups) × ((r.1 ≡ 0) ⊎ (r.1 ≡ all_ones)))

pub find_free_block-FoundBlock :
    (n k pos : ℕ) (s : Fs)
    → s.spb.block_per_group < 2 ^ 32
    → (0 < n) ⊎ ((pos ≡ 0) ⊎ (pos ≡ all_ones))
    → FoundBlock s (k + n) (find_free_block n k pos s)
unfolding find_free_block
find_free_block-FoundBlock zero k pos s h (inl p) = absurd (omega arith)
find_free_block-FoundBlock zero k pos s h (inr p) = inr (omega arith, p)
find_free_block-FoundBlock (suc n) k pos s h p =
    let b = bitset_of s.spb.block_per_group (bitmap s k s.std_buf) in
    let s1 : Fs = record s { std_buf = bitmap s k s.std_buf } in
    let later : (q : ℕ)
        → (q ≡ 0) ⊎ (q ≡ all_ones)
        → FoundBlock s (k + suc n) (find_free_block n (k + 1) q s1) =
      λ q z.
        subst (λ g. FoundBlock s g (find_free_block n (k + 1) q s1)) {x = k + 1 + n} (omega arith)
          (find_free_block-FoundBlock n (k + 1) q s1 h (inr z)) in
    elim (Bool-cases (is_true (unalloc_block s k))) [
      | inl some_left ↦ elim (Bool-cases (param_ffb b pos == all_ones)) [
        | inl e ↦
            rw (some_left, e, find_free_block)
              (later (add32 (param_ffb b pos) 1) (inl (omega (arith, ==→eq _ _ e))))
        | inr e ↦
            rw (some_left, e, find_free_block)
              (inl (
                omega arith,
                (param_ffb-free b h pos (==→ne _ _ e)).0,
                (s.std_buf, refl),
                (param_ffb-free b h pos (==→ne _ _ e)).1,
              ))
      ]
      | inr full ↦ rw (full, find_free_block) (later all_ones (inr refl))
    ]

pub find_free_block-buffer :
    (n k pos : ℕ) (s : Fs)
    → (buffer : Bytes) × ((find_free_block n k pos s).2 ≡ record s { std_buf = buffer })
unfolding find_free_block
find_free_block-buffer zero k pos s = (s.std_buf, refl)
find_free_block-buffer (suc n) k pos s =
    let b = bitset_of s.spb.block_per_group (bitmap s k s.std_buf) in
    let s1 : Fs = record s { std_buf = bitmap s k s.std_buf } in
    elim (Bool-cases (is_true (unalloc_block s k))) [
      | inl some_left ↦ elim (Bool-cases (param_ffb b pos == all_ones)) [
        | inl e ↦
            rw (some_left, e, find_free_block)
              (find_free_block-buffer n (k + 1) (add32 (param_ffb b pos) 1) s1)
        | inr e ↦ rw (some_left, e, find_free_block) (bitmap s k s.std_buf, refl)
      ]
      | inr full ↦ rw (full, find_free_block) (find_free_block-buffer n (k + 1) all_ones s1)
    ]

words_from-load32 :
    (n i j : ℕ) (m : Bytes) → j < n → get_or (words_from n i m) j 0 ≡ load32 m (4 * (i + j))
unfolding words_from
words_from-load32 zero i j m h = absurd (omega arith)
words_from-load32 (suc n) i zero m h = ap (λ k. load32 m (4 * k)) {x = i} {y = i + 0} (omega arith)
words_from-load32 (suc n) i (suc j) m h =
    words_from-load32 n (i + 1) j m (omega arith)
    ∙ ap (λ k. load32 m (4 * k)) {x = i + 1 + j} {y = i + suc j} (omega arith)

-- A bit that the code finds clear is clear in its word.
pub get_bit-load32 :
    (n pos : ℕ) (m : Bytes)
    → pos < n
    → get_bit (bitset_of n m) pos ≡ false
    → bit (load32 m (4 * (pos / 32))) (pos % 32) ≡ 0
get_bit-load32 n pos m h e =
    let w =
      words_from-load32 ((n + 31) / 32) 0 (pos / 32) m (omega arith)
      ∙ ap (λ k. load32 m (4 * k)) {x = 0 + pos / 32} {y = pos / 32} (omega arith) in
    let q = sym (get_bit-bit (bitset_of n m) pos) ∙ e in
    let clear : bit (word (bitset_of n m) (pos / 32)) (pos % 32) ≡ 0 =
      omega (arith, ==→ne _ _ q, bit-lt-two (word (bitset_of n m) (pos / 32)) (pos % 32)) in
    ap (λ x. bit x (pos % 32)) (sym w) ∙ clear

-- The bitmaps of the volume are as long as a block.
pub bitmap-load32 :
    (s : Fs) (k a : ℕ) (buffer : Bytes)
    → a + 4 ≤ 512 * sectors s.block_factor
    → load32 (bitmap s k buffer) a ≡ load32 s.disk (address (block (block_bitmap s k) s) + a)
unfolding load32
bitmap-load32 s k a buffer h =
    rw (read_lba-copied (block (block_bitmap s k) s) s.block_factor s.disk buffer) (ground arith)

-- The bit of a block in the bitmap of its group on the drive.
abbrev pub bitmap_bit : Fs → ℕ → ℕ → ℕ
bitmap_bit s k pos =
    bit (load32 s.disk (address (block (block_bitmap s k) s) + 4 * (pos / 32))) (pos % 32)
