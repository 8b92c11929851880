-- ===== src/Filesystem/Growth.antt =====
-- src/filesystem.c: `prepare_blocks`, which allocates the blocks of a file that grows. `addr` of
-- the code, the last block that was allocated, is where the next search starts.
use mariobr_os.Base.{
  ◌>>=◌, ℕ, zero, suc, ◌+◌, ◌-◌, ◌*◌, ◌/◌, ◌%◌, Bool, true, false, ◌||◌, Option, some, ◌==◌,
  if◌then◌else◌, ltb, leb, add32, sub32,
}
use mariobr_os.Memory.{Bytes, store32}
use mariobr_os.Filesystem.Volume.{
  Fs, block, mul32, sibp, dibp, tibp, read_buf, write_buf, update_inode,
}
use mariobr_os.Filesystem.Groups.{allocate_block}
use mariobr_os.Filesystem.Contents.{pointer}

-- The variables of `prepare_blocks`, and whether it has returned.
pub record Growth : Type 0 where
  pub returned : Bool
  pub used : ℕ
  pub to_use : ℕ
  pub count : ℕ
  pub addr : ℕ
  pub fs : Fs

abbrev pub returns : Growth → Growth
returns g = record g { returned = true }

-- The rest of the code, unless it has returned.
abbrev pub and_then : Growth → (Growth → Option Growth) → Option Growth
and_then g f = elim (g.returned) [ true ↦ some g | false ↦ f g ]

-- `addr = allocate_block(addr)`
unfoldable pub next_block : Growth → Option Growth
next_block g = do (a, s) ← allocate_block g.addr g.fs; some (record g { addr = a; fs = s })

abbrev pub counted : Growth → Growth
counted g = record g { used = add32 g.used 1; count = add32 g.count 1 }

abbrev pub with_update : ℕ → Growth → Growth
with_update inode g = record g { fs = update_inode inode g.fs }

-- `while(used < 12)`, with the rounds that are left.
unfoldable pub grow_direct : ℕ → ℕ → Growth → Option Growth
grow_direct zero inode g = some g
grow_direct (suc n) inode g = do
  g1 ← next_block g
  let m : Bytes = store32 g1.fs.std_inode (40 + 4 * g1.used) g1.addr
  let g2 : Growth = counted (record g1 { fs = record g1.fs { std_inode = m } })
  elim (g1.addr == 0) [
    | true ↦ some (returns (with_update inode g1))
    | false ↦ elim (g2.used == g2.to_use) [
      | true ↦ some (returns (with_update inode g2))
      | false ↦ grow_direct n inode g2
    ]
  ]

-- The blocks of one index block, which `std_buf` is meant to hold, from index `j` on; the buffer is
-- written back on every way out.
unfoldable pub grow_index : ℕ → ℕ → ℕ → ℕ → Growth → Option Growth
grow_index zero j lba sectors g = some (record g { fs = write_buf lba sectors g.fs })
grow_index (suc n) j lba sectors g = do
  g1 ← next_block g
  let m : Bytes = store32 g1.fs.std_buf (4 * j) g1.addr
  let g2 : Growth = counted (record g1 { fs = record g1.fs { std_buf = m } })
  elim (g1.addr == 0) [
    | true ↦ some (returns (record g1 { fs = write_buf lba sectors g1.fs }))
    | false ↦ elim (g2.used == g2.to_use) [
      | true ↦ some (returns (record g2 { fs = write_buf lba sectors g2.fs }))
      | false ↦ grow_index n (j + 1) lba sectors g2
    ]
  ]

abbrev pub addresses : Growth → ℕ
addresses g = g.fs.block_size / 4

abbrev pub read_at : ℕ → ℕ → Growth → Growth
read_at lba sectors g = record g { fs = read_buf lba sectors g.fs }

-- A new index block at index `i` of the one in `std_buf`, if it is to be the first of its kind.
unfoldable pub new_index : Bool → ℕ → ℕ → Growth → Option Growth
new_index false i lba g = some g
new_index true i lba g = do
  g1 ← next_block g
  let s1 : Fs = record g1.fs { std_buf = store32 g1.fs.std_buf (4 * i) g1.addr }
  some (if g1.addr == 0 then returns g1 else record g1 { fs = write_buf lba 4 s1 })

-- The index blocks below one of the second level, from index `i` on.
unfoldable pub grow_square : ℕ → ℕ → ℕ → Growth → Option Growth
grow_square zero i lba g = some g
grow_square (suc n) i lba g = do
  g1 ← new_index (g.used % addresses g == 0) i lba g
  and_then g1 λ g2. do
    let curr : ℕ = block (pointer g2.fs i) g2.fs
    let j : ℕ = g2.used % addresses g2
    g3 ← grow_index (addresses g2 - j) j curr 4 (read_at curr 4 g2)
    and_then g3 (grow_square n (i + 1) lba)

-- The same below the double index, whose block is read again for each.
unfoldable pub grow_double : ℕ → ℕ → Growth → Option Growth
grow_double zero i g = some g
grow_double (suc n) i g = do
  let lba : ℕ = block (dibp g.fs.std_inode) g.fs
  g1 ← new_index (g.used % addresses g == 0) i lba (read_at lba 4 g)
  and_then g1 λ g2. do
    let curr : ℕ = block (pointer g2.fs i) g2.fs
    let j : ℕ = g2.used % addresses g2
    g3 ← grow_index (addresses g2 - j) j curr 4 (read_at curr 4 g2)
    and_then g3 (grow_double n (i + 1))

abbrev pub square : Growth → ℕ
square g = mul32 (addresses g) (addresses g)

unfoldable pub grow_triple : ℕ → ℕ → Growth → Option Growth
grow_triple zero i g = some g
grow_triple (suc n) i g = do
  let lba : ℕ = block (tibp g.fs.std_inode) g.fs
  g1 ← new_index (g.used % square g == 0) i lba (read_at lba 4 g)
  and_then g1 λ g2. do
    let curr_sq : ℕ = block (pointer g2.fs i) g2.fs
    let j : ℕ = g2.used % square g2 / addresses g2
    g3 ← grow_square (addresses g2 - j) j curr_sq (read_at curr_sq 4 g2)
    and_then g3 (grow_triple n (i + 1))

-- `used` and `to_use` count from the next kind of blocks on.
abbrev pub past : ℕ → Growth → Growth
past n g = record g { used = sub32 g.used n; to_use = sub32 g.to_use n }

-- A new index block for the inode, stored at offset `at` of `std_inode`, if none is used yet.
unfoldable pub first_index : ℕ → Growth → Option Growth
first_index at g = do
  g1 ← if g.used == 0 then next_block g else some g
  let m : Bytes = store32 g1.fs.std_inode at g1.addr
  let g2 : Growth = record g1 { fs = record g1.fs { std_inode = m } }
  some (if g.used == 0 then (if g1.addr == 0 then returns g1 else g2) else g)

unfoldable pub direct_blocks : ℕ → Growth → Option Growth
direct_blocks inode g = do
  g1 ← grow_direct (12 - g.used) inode g
  and_then g1 λ g2. some (past 12 (with_update inode g2))

-- The inode is written only where its index block is new.
unfoldable pub single_blocks : ℕ → Growth → Option Growth
single_blocks inode g = do
  g1 ← first_index 88 g
  and_then g1 λ g2. do
    let g3 : Growth = if g.used == 0 then with_update inode g2 else g2
    let lba : ℕ = block (sibp g3.fs.std_inode) g3.fs
    let sectors : ℕ = g3.fs.block_factor
    g4 ← grow_index (addresses g3 - g3.used) g3.used lba sectors (read_at lba sectors g3)
    and_then g4 λ g5. some (past (addresses g5) g5)

unfoldable pub double_blocks : ℕ → Growth → Option Growth
double_blocks inode g = do
  g1 ← first_index 92 g
  and_then g1 λ g2. do
    let g3 : Growth = with_update inode g2
    grow_double (addresses g3 - g3.used / addresses g3) (g3.used / addresses g3) g3

-- Without a block for the triple index the inode is written all the same.
unfoldable pub triple_blocks : ℕ → Growth → Option Growth
triple_blocks inode g = do
  g1 ← first_index 96 g
  let g2 : Growth = with_update inode g1
  and_then g2 λ g3. grow_triple (addresses g3 - g3.used / square g3) (g3.used / square g3) g3

abbrev most_blocks : ℕ → ℕ
most_blocks n = add32 (add32 (add32 (mul32 (mul32 n n) n) (mul32 n n)) n) 12

-- The number of blocks that were allocated.
unfoldable pub prepare_blocks : ℕ → ℕ → ℕ → Fs → Option (ℕ × Fs)
prepare_blocks inode used to_use s =
    if (inode == 0) || leb to_use used || ltb (most_blocks (s.block_size / 4)) to_use
    then some (0, s)
    else do
      g1 ←
          direct_blocks inode
            (record { returned = false; used = used; to_use = to_use; count = 0; addr = 1; fs = s })
      g2 ← and_then g1 (single_blocks inode)
      g3 ← and_then g2 λ g. if ltb g.used (square g) then double_blocks inode g else some g
      g4 ← and_then g3 λ g. triple_blocks inode (past (square g) g)
      some (g4.count, g4.fs)
