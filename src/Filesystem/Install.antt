-- ===== src/Filesystem/Install.antt =====
-- src/filesystem.c: the removal of a directory with all that is in it, and the start of the volume.
use mariobr_os.Base.{
  ◌>>=◌, ℕ, zero, suc, ◌+◌, ◌-◌, ◌*◌, ◌/◌, ◌%◌, ◌^◌, true, false, not, ◌&&◌, ◌||◌, Option, none,
  some, List, [], ◌∷◌, ◌==◌, if◌then◌else◌, ltb, is_true, u32_mod, add32, sub32, bit_and, bit_or,
}
use mariobr_os.Memory.{Bytes, load16, load32}
use mariobr_os.Disk.{read_lba, read_pio}
use mariobr_os.Filesystem.Volume.{Superblock, Fs, block, mul32}
use mariobr_os.Filesystem.Groups.{allocate_inode}
use mariobr_os.Filesystem.Directories.{entry_inode, entry_size, file_type, read_directory}
use mariobr_os.Filesystem.Files.{file_dir, delete_file, create_file, create_dir}

-- The loop over the regular files of a directory: the error if one is met, and the entry where it
-- ends, which the buffer holds.
unfoldable pub delete_regular : ℕ → ℕ → ℕ → Fs → Option (ℕ × ℕ × Fs)
delete_regular zero current e s = none
delete_regular (suc n) current e s =
    elim (ltb e s.block_size && not (is_true (bit_and (file_type s.std_buf e) file_dir))) [
      | false ↦ some (0, e, s)
      | true ↦ do
        (res, s1) ← delete_file current (entry_inode s.std_buf e) s
        elim (is_true res) [
          | true ↦ some (res, e, s1)
          | false ↦ do
            s2 ← read_directory current s1
            delete_regular n current (e + entry_size s.std_buf e) s2
        ]
    ]

-- `while(1)`, on fuel: the number of rounds depends on the tree. The loop goes down into the first
-- directory of `current`, and back to its father when it is empty and deleted.
unfoldable pub delete_tree : ℕ → ℕ → ℕ → Fs → Option (ℕ × Fs)
delete_tree zero inode current s = none
delete_tree (suc n) inode current s = do
  s1 ← read_directory current s
  let father : ℕ = entry_inode s1.std_buf 12
  elim (entry_size s1.std_buf 12 == s1.block_size - 12) [
    | true ↦ do
      (res, s2) ← delete_file father current s1
      elim ((current == inode) || is_true res) [
        | true ↦ some (res, s2)
        | false ↦ delete_tree n inode father s2
      ]
    | false ↦ do
      (res, e, s2) ← delete_regular (suc s1.block_size) current (12 + entry_size s1.std_buf 12) s1
      elim (is_true res) [
        | true ↦ some (res, s2)
        | false ↦
            delete_tree n inode (if e == s2.block_size then current else entry_inode s2.std_buf e)
              s2
      ]
  ]

unfoldable pub rm_dir : ℕ → ℕ → Fs → Option (ℕ × Fs)
rm_dir fuel inode s = if inode == 0 then some (5, s) else delete_tree fuel inode inode s

-- The superblock is decoded from its bytes.
unfoldable pub superblock_of : Bytes → Superblock
superblock_of m = record {
  inode_num = load32 m 0;
  block_num = load32 m 4;
  unalloc_block_num = load32 m 12;
  unalloc_inode_num = load32 m 16;
  block_per_group = load32 m 32;
  inode_per_group = load32 m 40;
  first_free_inode = load32 m 84;
}

abbrev pub groups_of : ℕ → ℕ → ℕ
groups_of num per_group = sub32 (add32 num per_group) 1 / per_group

-- The globals after the superblock and the table of groups are read. The buffers are those of the
-- given state: `mem_alloc` does not fill them.
unfoldable pub mount : Fs → Option Fs
mount s0 = do
  m ← read_pio 2 0 236 s0.disk (λ j. 0)
  let spb : Superblock = superblock_of m
  let size : ℕ = (1024 * 2 ^ load32 m 24) % u32_mod
  let factor : ℕ = (2 * 2 ^ load32 m 24) % u32_mod
  let groups : ℕ = groups_of spb.block_num spb.block_per_group
  let table : ℕ = mul32 size (1 + sub32 (mul32 groups 32) 1 / size)
  let s1 : Fs = record s0 { spb = spb; block_factor = factor; block_size = size; bgpt_size = table }
  let s2 : Fs = record s1 {
    bgpt = read_lba (block 1 s1) (mul32 factor (table / size)) s1.disk s1.bgpt;
  }
  if not (load16 m 56 == 0xef53) || not (groups == groups_of spb.inode_num spb.inode_per_group)
      then none
      else some s2

abbrev test1 : List ℕ
test1 = 116 ∷ 101 ∷ 115 ∷ 116 ∷ 49 ∷ []

abbrev test2 : List ℕ
test2 = 116 ∷ 101 ∷ 115 ∷ 116 ∷ 50 ∷ []

abbrev subtest : List ℕ
subtest = 115 ∷ 117 ∷ 98 ∷ 116 ∷ 101 ∷ 115 ∷ 116 ∷ []

abbrev filetest : List ℕ
filetest = 102 ∷ 105 ∷ 108 ∷ 101 ∷ 116 ∷ 101 ∷ 115 ∷ 116 ∷ []

unfoldable pub filesystem_install : Fs → Option Fs
filesystem_install s0 = do
  s1 ← mount s0
  (dir1, s2) ← create_dir 2 test1 ((allocate_inode s1).1)
  (dir2, s3) ← create_dir 2 test2 s2
  (dir3, s4) ← create_dir dir1 subtest s3
  (file, s5) ← create_file dir2 filetest (bit_or 0x1ff 0x8000) 1 s4
  some s5
