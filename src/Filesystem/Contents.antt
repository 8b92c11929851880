-- ===== src/Filesystem/Contents.antt =====
-- src/filesystem.c: the blocks of a file, where they are found, read, written and released.
use mariobr_os.Base.{
  ◌>>=◌, ℕ, zero, suc, ◌+◌, ◌-◌, ◌*◌, ◌/◌, ◌%◌, Bool, true, false, Option, none, some, ◌==◌,
  if◌then◌else◌, ltb, leb, add32, sub32,
}
use mariobr_os.Memory.{Bytes, load32, store32}
use mariobr_os.Disk.{read_pio}
use mariobr_os.Filesystem.Volume.{
  Fs, block, mul32, dbp, sibp, dibp, tibp, size_low, read_buf, set_inode, update_inode,
  update_block,
}
use mariobr_os.Filesystem.Groups.{unallocate_block}

-- `read_pio(BLOCK(n), 0, block_size, std_buf)`.
abbrev pub load_block : ℕ → Fs → Option Fs
load_block n s = do
  b ← read_pio (block n s) 0 s.block_size s.disk s.std_buf
  some (record s { std_buf = b })

-- The address that an index block in `std_buf` has at an index.
abbrev pub pointer : Fs → ℕ → ℕ
pointer s i = load32 s.std_buf (4 * i)

abbrev triple_block : ℕ → Fs → Option (ℕ × Fs)
triple_block n s = do
  s1 ← load_block (tibp s.std_inode) s
  s2 ← load_block (pointer s1 (n / mul32 s.block_size s.block_size)) s1
  s3 ← load_block (pointer s2 (n % mul32 s.block_size s.block_size / s.block_size)) s2
  some (pointer s3 (n % s.block_size), s3)

abbrev double_block : ℕ → Fs → Option (ℕ × Fs)
double_block n s = do
  s1 ← load_block (dibp s.std_inode) s
  s2 ← load_block (pointer s1 (n / s.block_size)) s1
  some (pointer s2 (n % s.block_size), s2)

abbrev single_block : ℕ → Fs → Option (ℕ × Fs)
single_block n s = do s1 ← load_block (sibp s.std_inode) s; some (pointer s1 n, s1)

-- The block that holds block number `n` of the file in `std_inode`. A double or triple index is
-- taken apart by the size of a block, not by the number of its addresses.
unfoldable pub data_block : ℕ → Fs → Option (ℕ × Fs)
data_block n s =
    let addresses = s.block_size / 4 in
    let dbsize = mul32 s.block_size s.block_size in
    let n1 = n - 12 in
    let n2 = n1 - addresses in
    let n3 = n2 - dbsize / 16 in
    if ltb n 12
    then some (dbp s.std_inode n, s)
    else if ltb n1 addresses
    then single_block n1 s
    else if ltb n2 (dbsize / 16)
    then double_block n2 s
    else if leb (mul32 dbsize s.block_size / 64) n3
    then none
    else triple_block n3 s

-- The part of a request that lies in its first block.
abbrev pub width : ℕ → ℕ → Fs → ℕ
width offset length s =
    let ofs = offset % s.block_size in
    if ltb (s.block_size - ofs) length then s.block_size - ofs else length

-- The width, and what the given buffer holds then.
unfoldable pub read_inode_data : ℕ → Bytes → ℕ → ℕ → Fs → Option (ℕ × Bytes × Fs)
read_inode_data inode buffer offset length s = do
  s1 ← set_inode inode s
  (n, s2) ← data_block (offset / s.block_size) s1
  b ← read_pio (block n s2) (offset % s.block_size) (width offset length s) s2.disk buffer
  some (width offset length s, b, s2)

unfoldable pub write_inode_data : ℕ → Bytes → ℕ → ℕ → Fs → Option (ℕ × Fs)
write_inode_data inode buffer offset length s = do
  s1 ← set_inode inode s
  (n, s2) ← data_block (offset / s.block_size) s1
  some (
    width offset length s,
    update_block buffer (offset % s.block_size) (width offset length s) (block n s2) s2,
  )

-- `for (i...) unallocate_block(std_inode->dbp[i])`, with the rounds that are left.
unfoldable pub release_direct : ℕ → ℕ → Fs → Fs
release_direct zero i s = s
release_direct (suc n) i s = release_direct n (i + 1) ((unallocate_block (dbp s.std_inode i) s).1)

-- Each address is read from `std_buf` after the call before has read a bitmap into it.
unfoldable pub release_listed : ℕ → ℕ → Fs → Fs
release_listed zero i s = s
release_listed (suc n) i s = release_listed n (i + 1) ((unallocate_block (pointer s i) s).1)

-- The same, as long as blocks are left: whether that was the last, how many are left, the state.
unfoldable pub release_some : ℕ → ℕ → ℕ → Fs → Bool × ℕ × Fs
release_some zero j blocks s = (false, blocks, s)
release_some (suc n) j blocks s =
    let s1 = (unallocate_block (pointer s j) s).1 in
    let left = sub32 blocks 1 in
    elim (left == 0) [ true ↦ (true, left, s1) | false ↦ release_some n (j + 1) left s1 ]

-- The blocks below the double index; the index block itself is released with the last of them.
unfoldable pub release_double : ℕ → ℕ → ℕ → Fs → Bool × ℕ × Fs
release_double zero i blocks s = (false, blocks, s)
release_double (suc n) i blocks s =
    let s1 = read_buf (block (dibp s.std_inode) s) 4 s in
    let curr = block (pointer s1 i) s1 in
    let (last, left, s2) = release_some (s.block_size / 4) 0 blocks (read_buf curr 4 s1) in
    let s3 = (unallocate_block curr s2).1 in
    elim last [
      | true ↦ (true, left, (unallocate_block (block (dibp s3.std_inode) s3) s3).1)
      | false ↦ release_double n (i + 1) left s3
    ]

-- The blocks below one address of the triple index.
unfoldable pub release_square : ℕ → ℕ → ℕ → ℕ → Fs → Bool × ℕ × Fs
release_square zero curr_sq j blocks s = (false, blocks, s)
release_square (suc n) curr_sq j blocks s =
    let curr = block (pointer s j) s in
    let (last, left, s1) = release_some (s.block_size / 4) 0 blocks (read_buf curr 4 s) in
    let s2 = (unallocate_block curr s1).1 in
    elim last [
      | true ↦ (true, left, (unallocate_block curr_sq s2).1)
      | false ↦ release_square n curr_sq (j + 1) left s2
    ]

unfoldable pub release_triple : ℕ → ℕ → ℕ → Fs → Fs
release_triple zero i blocks s = (unallocate_block (block (tibp s.std_inode) s) s).1
release_triple (suc n) i blocks s =
    let s1 = read_buf (block (tibp s.std_inode) s) 4 s in
    let curr_sq = block (pointer s1 i) s1 in
    let (last, left, s2) =
      release_square (s.block_size / 4) curr_sq 0 blocks (read_buf curr_sq 4 s1) in
    elim last [
      | true ↦ (unallocate_block (block (tibp s2.std_inode) s2) s2).1
      | false ↦ release_triple n (i + 1) left ((unallocate_block curr_sq s2).1)
    ]

-- The part of `erase_file_data` past the blocks of the single index.
unfoldable pub release_far : ℕ → Fs → Fs
release_far blocks s =
    let (last, left, s1) = release_double (s.block_size / 4) 0 blocks s in
    elim last [
      | true ↦ s1
      | false ↦
          release_triple (s.block_size / 4) 0 left
            ((unallocate_block (block (dibp s1.std_inode) s1) s1).1)
    ]

-- The blocks of the file in `std_inode`, of which there are `blocks`.
unfoldable pub release_blocks : ℕ → Fs → Fs
release_blocks blocks s =
    let addresses = s.block_size / 4 in
    let sibp_block = block (sibp s.std_inode) s in
    let s1 = read_buf sibp_block s.block_factor (release_direct 12 0 s) in
    if leb blocks 12
    then release_direct blocks 0 s
    else if leb (blocks - 12) addresses
    then (unallocate_block sibp_block (release_listed (blocks - 12) 0 s1)).1
    else release_far (blocks - 12 - addresses)
        (release_listed addresses 0 ((unallocate_block sibp_block s1).1))

unfoldable pub erase_file_data : ℕ → Fs → Option Fs
erase_file_data inode s = if inode == 0 then some s else do
  s1 ← set_inode inode s
  let size : ℕ = size_low s1.std_inode
  let s2 = update_inode inode (record s1 { std_inode = store32 s1.std_inode 4 0 })
  some (if size == 0 then s1 else release_blocks (add32 1 (sub32 size 1 / s.block_size)) s2)
