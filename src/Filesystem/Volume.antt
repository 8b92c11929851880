-- ===== src/Filesystem/Volume.antt =====
-- src/filesystem.c and src/fs_types.h: the state of the volume, and how inodes are read and written.
-- `none` is a `throw`, or a loop that does not end.
use mariobr_os.Base.{
  ◌>>=◌, ℕ, zero, suc, ◌+◌, ◌-◌, ◌*◌, ◌/◌, ◌%◌, Option, some, put, u32_mod, add32, sub32,
}
use mariobr_os.Memory.{Bytes, load16, load32}
use mariobr_os.Disk.{read_lba, write_lba, read_pio}

-- The fields of `superblock_t` that the code uses.
pub record Superblock : Type 0 where
  pub inode_num : ℕ
  pub block_num : ℕ
  pub unalloc_block_num : ℕ
  pub unalloc_inode_num : ℕ
  pub block_per_group : ℕ
  pub inode_per_group : ℕ
  pub first_free_inode : ℕ

-- The globals, and the bytes of the drive.
pub record Fs : Type 0 where
  pub disk : Bytes
  pub spb : Superblock
  pub bgpt : Bytes
  pub bgpt_size : ℕ
  pub block_factor : ℕ
  pub block_size : ℕ
  pub std_buf : Bytes
  pub std_inode : Bytes

abbrev pub block : ℕ → Fs → ℕ
block n s = (s.block_factor * n) % u32_mod

abbrev pub mul32 : ℕ → ℕ → ℕ
mul32 a b = (a * b) % u32_mod

-- The fields of a group descriptor, of 32 bytes, in the table.
abbrev pub block_bitmap : Fs → ℕ → ℕ
block_bitmap s k = load32 s.bgpt (32 * k)

abbrev pub inode_bitmap : Fs → ℕ → ℕ
inode_bitmap s k = load32 s.bgpt (32 * k + 4)

abbrev pub inode_table : Fs → ℕ → ℕ
inode_table s k = load32 s.bgpt (32 * k + 8)

abbrev pub unalloc_block : Fs → ℕ → ℕ
unalloc_block s k = load16 s.bgpt (32 * k + 12)

abbrev pub unalloc_inode : Fs → ℕ → ℕ
unalloc_inode s k = load16 s.bgpt (32 * k + 14)

-- The fields of an inode, of 128 bytes.
abbrev pub inode_type : Bytes → ℕ
inode_type m = load16 m 0

abbrev pub size_low : Bytes → ℕ
size_low m = load32 m 4

abbrev pub hard_links : Bytes → ℕ
hard_links m = load16 m 26

abbrev pub dbp : Bytes → ℕ → ℕ
dbp m i = load32 m (40 + 4 * i)

abbrev pub sibp : Bytes → ℕ
sibp m = load32 m 88

abbrev pub dibp : Bytes → ℕ
dibp m = load32 m 92

abbrev pub tibp : Bytes → ℕ
tibp m = load32 m 96

-- `read_lba` into `std_buf`, and `write_lba` from it.
abbrev pub read_buf : ℕ → ℕ → Fs → Fs
read_buf lba count s = record s { std_buf = read_lba lba count s.disk s.std_buf }

abbrev pub write_buf : ℕ → ℕ → Fs → Fs
write_buf lba count s = record s { disk = write_lba lba count s.std_buf s.disk }

-- `std_buf[pos] = buffer[pos - ofs]`, with the rounds that are left.
unfoldable pub update_from : ℕ → ℕ → ℕ → Bytes → Bytes → Bytes
update_from zero pos ofs buffer b = b
update_from (suc n) pos ofs buffer b =
    update_from n (pos + 1) ofs buffer (put b pos (buffer (pos - ofs)))

unfoldable pub update_block : Bytes → ℕ → ℕ → ℕ → Fs → Fs
update_block buffer ofs length address s =
    let lba = add32 address (mul32 s.block_factor (ofs / s.block_size)) in
    let start = ofs % s.block_size in
    let s1 = read_buf lba s.block_factor s in
    write_buf lba s.block_factor
      (record s1 { std_buf = update_from length start start buffer s1.std_buf })

abbrev pub group_of : ℕ → Fs → ℕ
group_of inode s = sub32 inode 1 / s.spb.inode_per_group

abbrev pub index_of : ℕ → Fs → ℕ
index_of inode s = sub32 inode 1 % s.spb.inode_per_group

-- Every call has the buffer `std_inode`.
unfoldable pub set_inode : ℕ → Fs → Option Fs
set_inode inode s = do
  m ←
      read_pio (block (inode_table s (group_of inode s)) s) (mul32 (index_of inode s) 128) 128
        s.disk s.std_inode
  some (record s { std_inode = m })

unfoldable pub update_inode : ℕ → Fs → Fs
update_inode inode s =
    update_block s.std_inode (mul32 (index_of inode s) 128) 128
      (block (inode_table s (group_of inode s)) s) s

unfoldable pub flush_bgpt : Fs → Fs
flush_bgpt s = record s {
  disk = write_lba (block 1 s) (mul32 s.block_factor (s.bgpt_size / s.block_size)) s.bgpt s.disk;
}
