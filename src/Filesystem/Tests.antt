-- ===== src/Filesystem/Tests.antt =====
-- Concrete volumes of one or two groups, with blocks of a kilobyte.
use mariobr_os.Base.{
  ℕ, ◌+◌, ◌*◌, ◌%◌, ◌<◌, ◌≡◌, ◌⊎◌, inr, refl, true, none, some, ◌==◌, if◌then◌else◌, is_true, arith,
}
use mariobr_os.Memory.{Bytes, load16, load32}
use mariobr_os.Disk.{read_lba, read_words}
use mariobr_os.Disk.Reads.{read_lba-copied}
use mariobr_os.Bitset.{find_zero, all_ones, param_ffb, param_ffb_from}
use mariobr_os.Filesystem.Volume.{Superblock, Fs, set_inode, update_inode, unalloc_block}
use mariobr_os.Filesystem.Groups.{
  search_block, bitset_of, words_from, find_free_block, allocate_block, block_groups,
}
use mariobr_os.Filesystem.Contents.{width, read_inode_data, write_inode_data}
use mariobr_os.Filesystem.Inodes.{InTable, set_inode-update_inode}
use mariobr_os.Filesystem.RoundTrip.{read_inode_data-write_inode_data}
use mariobr_os.Filesystem.Allocation.{IsVolume, Handed, Beyond, allocate_block-Handed}
use mariobr_os.Filesystem.Bitmaps.{bitmap}
use mariobr_os.Filesystem.Overrun.{allocate_block-past_end}

abbrev counts : Superblock
counts = record {
  inode_num = 8;
  block_num = 32;
  unalloc_block_num = 3;
  unalloc_inode_num = 3;
  block_per_group = 32;
  inode_per_group = 8;
  first_free_inode = 3;
}

-- The table of inodes is block 5; the first group has a free block, and so has the third.
abbrev groups : Bytes
groups j = if j == 8 then 5 else if j == 12 then 1 else if j == 76 then 1 else 0

abbrev empty : Bytes
empty j = 0

abbrev volume : Fs
volume = record {
  disk = λ j. 255;
  spb = counts;
  bgpt = groups;
  bgpt_size = 1024;
  block_factor = 2;
  block_size = 1024;
  std_buf = empty;
  std_inode = empty;
}

abbrev blank_volume : Fs
blank_volume = record volume { disk = empty }

blank-InTable : InTable 2 blank_volume
unfolding load32
blank-InTable = record {
  volume = record { factor_pos = omega arith; factor_small = omega arith; sizes = refl };
  fits = omega arith;
  reachable = omega arith;
}

set_inode-update_inode_example :
    (s2 : Fs) × (set_inode 2 (record (update_inode 2 blank_volume) { std_inode = empty }) ≡ some s2)
    × ((j : ℕ) → j < 128 → s2.std_inode j ≡ 0)
set_inode-update_inode_example = set_inode-update_inode 2 blank_volume empty blank-InTable

abbrev letters : Bytes
letters j = 97 + j % 26

read_inode_data-write_inode_data_example :
    (s1 s2 : Fs) × (b : Bytes) × (write_inode_data 2 letters 1500 9 blank_volume
      ≡ some (width 1500 9 blank_volume, s1))
    × (read_inode_data 2 empty 1500 9 s1 ≡ some (width 1500 9 blank_volume, b, s2))
    × ((j : ℕ) → j < width 1500 9 blank_volume → b j ≡ letters j)
unfolding load32
read_inode_data-write_inode_data_example =
    read_inode_data-write_inode_data 2 1500 9 letters empty blank_volume blank-InTable (omega arith)
      (omega arith) (inr (omega arith))

-- Every bit of the bitmap is set from block 20 on.
full_bitmap : (buffer : Bytes) → param_ffb (bitset_of 32 (bitmap volume 0 buffer)) 20 ≡ all_ones
unfolding param_ffb param_ffb_from words_from load32
full_bitmap buffer = rw (read_lba-copied 0 2 volume.disk buffer)

some_left : is_true (unalloc_block volume 0) ≡ true
unfolding load16
some_left = refl

allocate_block-past_end_example :
    (s' : Fs) × (allocate_block 20 volume ≡ some (block_groups volume * 32, s'))
allocate_block-past_end_example =
    allocate_block-past_end 20 volume (omega arith) (omega arith) (omega arith) refl (omega arith)
      some_left full_bitmap

-- The block that a search with free bits hands out.
abbrev after_20 : Fs
after_20 = elim (allocate_block 20 blank_volume) [ some (n, s) ↦ s | none ↦ blank_volume ]

allocates_20 : allocate_block 20 blank_volume ≡ some (20, after_20)
unfolding allocate_block search_block find_free_block param_ffb param_ffb_from find_zero words_from
    load32 load16 read_lba read_words
allocates_20 = refl

blank_volume-IsVolume : IsVolume blank_volume
blank_volume-IsVolume = record {
  group = omega arith;
  numbers = omega arith;
  bitmap_fits = omega arith;
}

allocate_block-Handed_example : Handed blank_volume 20 ⊎ Beyond blank_volume 20
allocate_block-Handed_example =
    allocate_block-Handed 20 20 blank_volume after_20 blank_volume-IsVolume (omega arith)
      allocates_20
