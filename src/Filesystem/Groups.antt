-- ===== src/Filesystem/Groups.antt =====
-- src/filesystem.c: the bitmaps of the groups, a bitset over `std_buf`, and the allocation of inodes
-- and blocks. `flush_spb` does nothing.
use mariobr_os.Base.{
  ℕ, zero, suc, ◌+◌, ◌-◌, ◌*◌, ◌/◌, ◌%◌, ◌^◌, true, false, not, ◌||◌, Option, none, some, List, [],
  ◌∷◌, ◌==◌, if◌then◌else◌, ltb, leb, is_true, add32, sub32, bit_and,
}
use mariobr_os.Memory.{Bytes, load16, load32, store16, store32}
use mariobr_os.Bitset.{Bitset, all_ones, word, set_bit, get_bit, param_ffb}
use mariobr_os.Filesystem.Volume.{
  Fs, block, mul32, block_bitmap, inode_bitmap, unalloc_block, unalloc_inode, read_buf, write_buf,
  group_of, index_of, flush_bgpt,
}

-- The words of a bitset over an array of bytes.
unfoldable pub words_from : ℕ → ℕ → Bytes → List ℕ
words_from zero i m = []
words_from (suc n) i m = load32 m (4 * i) ∷ words_from n (i + 1) m

abbrev pub bitset_of : ℕ → Bytes → Bitset
bitset_of length m = record { bits = words_from ((length + 31) / 32) 0 m; length = length }

-- `set_bit(b, n, value)` where `b.bits` is `std_buf`: it stores one word.
unfoldable pub mark : ℕ → ℕ → ℕ → Bytes → Bytes
mark length n value m =
    store32 m (4 * (n / 32)) (word (set_bit (bitset_of length m) n value) (n / 32))

abbrev pub dec16 : ℕ → ℕ
dec16 n = (n + 2 ^ 16 - 1) % 2 ^ 16

abbrev pub inode_groups : Fs → ℕ
inode_groups s = add32 1 (sub32 s.spb.inode_num 1 / s.spb.inode_per_group)

-- The search for the next free inode: the group and the position where it ends.
unfoldable pub find_free_inode : ℕ → ℕ → ℕ → Fs → ℕ × ℕ × Fs
find_free_inode zero k pos s = (k, pos, s)
find_free_inode (suc n) k pos s =
    let s1 = read_buf (block (inode_bitmap s k) s) s.block_factor s in
    let found = param_ffb (bitset_of s.spb.inode_per_group s1.std_buf) (add32 pos 1) in
    elim (is_true (unalloc_inode s k)) [
      | false ↦ find_free_inode n (k + 1) all_ones s1
      | true ↦ elim (found == all_ones) [
        | true ↦ find_free_inode n (k + 1) found s1
        | false ↦ (k, found, s1)
      ]
    ]

-- The inode is marked and the counters go down.
unfoldable pub take_inode : ℕ → Fs → Fs
take_inode ret s =
    let k = group_of ret s in
    let lba = block (inode_bitmap s k) s in
    let s1 =
      write_buf lba s.block_factor
        (record s { std_buf = mark s.spb.inode_per_group (index_of ret s) 1 s.std_buf }) in
    flush_bgpt (record s1 {
      spb = record s1.spb { unalloc_inode_num = sub32 s1.spb.unalloc_inode_num 1 };
      bgpt = store16 s1.bgpt (32 * k + 14) (dec16 (unalloc_inode s1 k));
    })

unfoldable pub allocate_inode : Fs → ℕ × Fs
allocate_inode s =
    let ret = s.spb.first_free_inode in
    let k = group_of ret s in
    let s1 = read_buf (block (inode_bitmap s k) s) s.block_factor s in
    if s.spb.unalloc_inode_num == 0
    then (0, s1)
    else let (last, pos, s2) =
        find_free_inode (inode_groups s - k) k (index_of ret s) (take_inode ret s1) in
      if pos == all_ones then (0, s2) else (
        ret,
        record s2 {
          spb = record s2.spb {
            first_free_inode = add32 (add32 (mul32 last s2.spb.inode_per_group) pos) 1;
          };
        },
      )

-- The test and the update of the bitmap go by 16-bit words, modulo 2048.
abbrev pub inode_word : ℕ → ℕ
inode_word inode = 2 * (sub32 inode 1 % 2048 / 16)

abbrev pub inode_mask : ℕ → ℕ
inode_mask inode = 2 ^ (sub32 inode 1 % 16)

unfoldable pub unallocate_inode : ℕ → Fs → ℕ × Fs
unallocate_inode inode s =
    let s0 =
      if ltb inode s.spb.first_free_inode
      then record s { spb = record s.spb { first_free_inode = inode } }
      else s in
    let k = group_of inode s0 in
    let lba = block (inode_bitmap s0 k) s0 in
    let s1 = read_buf lba s0.block_factor s0 in
    let w = load16 s1.std_buf (inode_word inode) in
    if not (is_true (bit_and w (inode_mask inode)))
    then (1, s1)
    else let s2 = record s1 {
      spb = record s1.spb { unalloc_inode_num = add32 s1.spb.unalloc_inode_num 1 };
      bgpt = store16 s1.bgpt (32 * k + 14) ((unalloc_inode s1 k + 1) % 2 ^ 16);
      std_buf = store16 s1.std_buf (inode_word inode) (bit_and w (2 ^ 16 - 1 - inode_mask inode));
    } in
      (0, flush_bgpt (write_buf lba s2.block_factor s2))

-- The search for a free block from position `pos` of group `k` on. In a group that is searched in
-- vain the position goes on to 0; after a group with no free block it is all ones.
unfoldable pub find_free_block : ℕ → ℕ → ℕ → Fs → ℕ × ℕ × Fs
find_free_block zero k pos s = (k, pos, s)
find_free_block (suc n) k pos s =
    let s1 = read_buf (block (block_bitmap s k) s) s.block_factor s in
    let found = param_ffb (bitset_of s.spb.block_per_group s1.std_buf) pos in
    elim (is_true (unalloc_block s k)) [
      | false ↦ find_free_block n (k + 1) all_ones s1
      | true ↦ elim (found == all_ones) [
        | true ↦ find_free_block n (k + 1) (add32 found 1) s1
        | false ↦ (k, found, s1)
      ]
    ]

abbrev pub block_groups : Fs → ℕ
block_groups s = sub32 s.spb.block_num 1 / s.spb.block_per_group + 1

-- The block is marked in the bitmap that `std_buf` holds, and the counters go down.
unfoldable pub take_block : ℕ → ℕ → Fs → Fs
take_block k pos s =
    let s1 =
      write_buf (block (block_bitmap s k) s) s.block_factor
        (record s { std_buf = mark s.spb.block_per_group pos 1 s.std_buf }) in
    flush_bgpt (record s1 {
      spb = record s1.spb { unalloc_block_num = sub32 s1.spb.unalloc_block_num 1 };
      bgpt = store16 s1.bgpt (32 * k + 12) (dec16 (unalloc_block s1 k));
    })

-- One call that does not start again: a block, or `none`, with the state.
unfoldable pub search_block : ℕ → Fs → Option ℕ × Fs
search_block prec s =
    let k0 = prec / s.spb.block_per_group in
    let (k, pos, s2) =
      find_free_block (block_groups s - k0) k0 (prec % s.spb.block_per_group)
        (read_buf (block (block_bitmap s k0) s) s.block_factor s) in
    if pos == all_ones
    then (none, s2)
    else (some (add32 (mul32 k s.spb.block_per_group) pos), take_block k pos s2)

-- A search that starts from 1 and fails is an error.
unfoldable pub allocate_first : Fs → Option (ℕ × Fs)
allocate_first s =
    let (found, s1) = search_block 1 s in elim found [ some n ↦ some (n, s1) | none ↦ none ]

unfoldable pub allocate_block : ℕ → Fs → Option (ℕ × Fs)
allocate_block prec s =
    let prec1 = if (prec == 0) || leb (sub32 s.spb.block_num 1) prec then 1 else prec in
    if s.spb.unalloc_block_num == 0
    then some
        (0, read_buf (block (block_bitmap s (prec1 / s.spb.block_per_group)) s) s.block_factor s)
    else let (found, s1) = search_block prec1 s in
      elim found [ some n ↦ some (n, s1) | none ↦ if prec1 == 1 then none else allocate_first s1 ]

unfoldable pub unallocate_block : ℕ → Fs → ℕ × Fs
unallocate_block n s =
    let lba = block (block_bitmap s (n / s.spb.block_per_group)) s in
    let s1 = read_buf lba s.block_factor s in
    let pos = n % s.spb.block_per_group in
    if not (get_bit (bitset_of s.spb.block_per_group s1.std_buf) pos) then (1, s1) else (
      0,
      flush_bgpt (
          write_buf lba s.block_factor
            (record s1 { std_buf = mark s.spb.block_per_group pos 0 s1.std_buf })),
    )
