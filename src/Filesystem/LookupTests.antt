-- ===== src/Filesystem/LookupTests.antt =====
-- A directory of one entry, and one whose first entry is dead, in the block at the volume's start.
use mariobr_os.Base.{ℕ, ◌≡◌, refl, none, some, [], ◌∷◌, ◌==◌, if◌then◌else◌, arith}
use mariobr_os.Memory.{Bytes, load16, load32}
use mariobr_os.Disk.{read_pio, pio_transfer, pio_words}
use mariobr_os.Filesystem.Volume.{Superblock, Fs, set_inode}
use mariobr_os.Filesystem.Contents.{read_inode_data, data_block}
use mariobr_os.Filesystem.Directories.{read_directory, step_into}
use mariobr_os.Filesystem.Lookup.{Entries, AreNamed, contents, first_named, step_into-first_named}

-- An entry of the whole block, for inode `i`, with the name "a".
abbrev drive : ℕ → Bytes
drive i j =
    if j == 1048576
    then i
    else if j == 1048581
    then 4
    else if j == 1048582
    then 1
    else if j == 1048584
    then 97
    else 0

abbrev counts : Superblock
counts = record {
  inode_num = 8;
  block_num = 32;
  unalloc_block_num = 3;
  unalloc_inode_num = 3;
  block_per_group = 32;
  inode_per_group = 8;
  first_free_inode = 3;
}

abbrev volume : ℕ → Fs
volume i = record {
  disk = drive i;
  spb = counts;
  bgpt = λ j. if j == 8 then 5 else 0;
  bgpt_size = 1024;
  block_factor = 2;
  block_size = 1024;
  std_buf = λ j. 0;
  std_inode = λ j. 0;
}

abbrev opened : ℕ → Fs
opened i = elim (read_directory 2 (volume i)) [ some s ↦ s | none ↦ volume i ]

opens : read_directory 2 (volume 7) ≡ some (opened 7)
unfolding read_directory read_inode_data data_block set_inode read_pio pio_transfer pio_words load32
opens = refl

one_entry : Entries (opened 7).std_buf (opened 7).block_size 0 (0 ∷ [])
unfolding read_directory read_inode_data data_block set_inode read_pio pio_transfer pio_words load32
    load16
one_entry = omega arith

names : AreNamed (opened 7).std_buf (0 ∷ [])
unfolding read_directory read_inode_data data_block set_inode read_pio pio_transfer pio_words load32
    load16
names = ((((λ e. absurd (omega (arith, e))), tt), refl), tt)

step_into-first_named_example :
    step_into (97 ∷ []) 2 (volume 7)
    ≡ some (first_named (97 ∷ []) (contents (opened 7).std_buf (0 ∷ [])), opened 7)
step_into-first_named_example =
    step_into-first_named (97 ∷ []) 2 (volume 7) (opened 7) (0 ∷ [])
      ((λ e. absurd (omega (arith, e))), tt) opens one_entry names

finds_7 : first_named (97 ∷ []) (contents (opened 7).std_buf (0 ∷ [])) ≡ some 7
unfolding read_directory read_inode_data data_block set_inode read_pio pio_transfer pio_words load32
finds_7 = refl
