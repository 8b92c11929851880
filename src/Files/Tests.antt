-- ===== src/Files/Tests.antt =====
-- Concrete runs on the descriptors: descriptor 4 has entry 2, on a disk that reads at most 3 bytes
-- and writes at most 5 bytes at a time.
use mariobr_os.Base.{
  ℕ, ◌+◌, ◌≤◌, ◌≡◌, refl, min, max, some, List, [], length, length-replicate, replicate, arith,
}
use mariobr_os.Files.{FileSystem, Fdt, entry, write, blocks_used}
use mariobr_os.Files.Writes.{write-advances}

abbrev disk : FileSystem ℕ
disk = record {
  block_size = 1024;
  find_inode = λ path d. (length path, d);
  create_file = λ path perm d. (9, d);
  erase_file_data = λ inode d. d;
  inode_size = λ inode d. 100;
  read_inode_data = λ inode pos n d. replicate (min n 3) 65;
  prepare_blocks = λ inode used to_use d. (0, d);
  write_inode_data = λ inode buffer offset pos n d. (min n 5, d);
  update_size = λ inode size d. d;
}

abbrev opened : Fdt ℕ
opened = record {
  fdt = λ i. record { inode = 7; pos = 10; size = 100; mode = 3; this = 4 };
  fdt_size = 256;
  fdt_num = 1;
  index = λ f. 2;
  disk = 0;
}

read-law : (inode pos n d : ℕ) → length (disk.read_inode_data inode pos n d) ≤ n
read-law inode pos n d = omega (arith, length-replicate {A = ℕ} (min n 3) 65)

write-law : (i : ℕ) (b : List ℕ) (o p n d : ℕ) → (disk.write_inode_data i b o p n d).0 ≤ n
write-law i b o p n d = omega arith

write-advances_example :
    (n : ℕ) × (t : Fdt ℕ) × (write disk 13 4 [] 0 12 opened ≡ some (n, t))
    × (n ≤ 12)
    × ((entry t 4).pos ≡ 10 + n)
    × ((entry t 4).size ≡ max 100 (10 + n))
unfolding blocks_used
write-advances_example =
    write-advances disk opened 4 13 0 12 [] write-law refl refl (omega arith) (omega arith)
      (omega arith) refl
