-- ===== src/Files.antt =====
-- src/fs_inter.c and src/fs_inter.h: the table of file descriptors over the file system. A `fd` is
-- the address of a number, the index of its entry; the numbers at these addresses are a field of
-- the state, and 0 is the null pointer. The file system is an interface, `FileSystem`.
pub mod Offsets
pub mod Writes
mod Tests
use mariobr_os.Base.{
  ℕ, zero, suc, ◌+◌, ◌-◌, ◌*◌, ◌/◌, ◌%◌, ◌^◌, Bool, true, false, not, ◌&&◌, ◌||◌, Option, none,
  some, List, [], ◌∷◌, put, ◌==◌, if◌then◌else◌, ltb, leb, bit_and, bit_or, is_true, add32, sub32,
  u32_mod, length,
}

-- What src/fs_inter.c calls in src/filesystem.c, on a state `D` of the disk and its buffers. A path
-- is a string; `create_file` is the creation of the last name of a path in its directory, and
-- `update_size` the update of the size in an inode. An operation is one that returns: a throw in the
-- file system ends the program.
pub record FileSystem (D : Type 0) : Type 0 where
  pub block_size : ℕ
  pub find_inode : List ℕ → D → ℕ × D
  pub create_file : List ℕ → ℕ → D → ℕ × D
  pub erase_file_data : ℕ → D → D
  pub inode_size : ℕ → D → ℕ
  pub read_inode_data : ℕ → ℕ → ℕ → D → List ℕ
  pub prepare_blocks : ℕ → ℕ → ℕ → D → ℕ × D
  pub write_inode_data : ℕ → List ℕ → ℕ → ℕ → ℕ → D → ℕ × D
  pub update_size : ℕ → ℕ → D → D

-- `struct file_description`
pub record Entry : Type 0 where
  pub inode : ℕ
  pub pos : ℕ
  pub size : ℕ
  pub mode : ℕ
  pub this : ℕ

-- The globals `fdt`, `fdt_size` and `fdt_num`, the numbers that descriptors point at, and the disk.
pub record Fdt (D : Type 0) : Type 0 where
  pub fdt : ℕ → Entry
  pub fdt_size : ℕ
  pub fdt_num : ℕ
  pub index : ℕ → ℕ
  pub disk : D

abbrev pub entry : {D : Type 0} → Fdt D → ℕ → Entry
entry s f = s.fdt (s.index f)

abbrev pub set_entry : {D : Type 0} → Fdt D → ℕ → Entry → Fdt D
set_entry s f e = record s { fdt = put s.fdt (s.index f) e }

-- `i` of the search for a free entry, with the rounds that are left.
unfoldable pub find_entry : ℕ → (ℕ → Entry) → ℕ → ℕ
find_entry zero t i = i
find_entry (suc n) t i = elim (is_true (t i).inode) [ true ↦ find_entry n t (i + 1) | false ↦ i ]

-- A full table doubles in size. The other fields of the new entries are not initialised: they are
-- what the given table holds there.
unfoldable pub expand : {D : Type 0} → Fdt D → Fdt D
expand s = record s {
  fdt = λ j. if ltb j s.fdt_size then s.fdt j else record (s.fdt j) { inode = 0 };
  fdt_size = 2 * s.fdt_size % u32_mod;
}

-- The tests of `openfile` on the flags: whether the call goes on.
unfoldable pub may_open : ℕ → ℕ → Bool
may_open oflag inode =
    not (not (is_true (bit_and oflag 0x08) || is_true inode))
    && not (is_true (bit_and oflag 0x20) && is_true inode)

-- A free entry is taken for the new descriptor `f`.
unfoldable pub take_entry : {D : Type 0} → ℕ → Fdt D → Fdt D
take_entry f s =
    let i = find_entry s.fdt_size s.fdt 0 in
    let s1 = if i == s.fdt_size then expand s else s in
    record s1 { index = put s1.index f i; fdt_num = add32 s1.fdt_num 1 }

-- The test on a descriptor that `read` and `write` share.
abbrev pub is_valid : {D : Type 0} → Fdt D → ℕ → Bool
is_valid s f = not (
    not (is_true f)
    || ltb s.fdt_size (s.index f)
    || not ((entry s f).this == f)
    || not (is_true (entry s f).inode))

-- The number of bytes that `read` asks for.
unfoldable pub read_length : Entry → ℕ → ℕ
read_length e len = if ltb e.size (add32 e.pos len) then e.size - e.pos else len

module _ {D : Type 0} (fs : FileSystem D) where
  -- The rest of `openfile` once the inode is known.
  unfoldable pub fill_entry : ℕ → ℕ → ℕ → Fdt D → Fdt D
  fill_entry f oflag inode s =
      let d = if is_true (bit_and oflag 0x10) then fs.erase_file_data inode s.disk else s.disk in
      let size = fs.inode_size inode d in
      let s1 : Fdt D = record s { disk = d } in
      set_entry s1 f (record {
        inode = inode;
        pos = if is_true (bit_and oflag 0x04) then size else 0;
        size = size;
        mode = bit_and oflag 3;
        this = f;
      })

  -- `openfile`, with the address `f` of the new descriptor: what it returns, and the state.
  unfoldable pub openfile : ℕ → List ℕ → ℕ → ℕ → Fdt D → ℕ × Fdt D
  openfile f path oflag fperm s =
      let looked = fs.find_inode path s.disk in
      let inode = looked.0 in
      let s0 : Fdt D = record s { disk = looked.1 } in
      let s1 = take_entry f s0 in
      let created = fs.create_file path (bit_or 0x8000 fperm) s1.disk in
      let s2 : Fdt D = record s1 { disk = created.1 } in
      if may_open oflag inode
      then (if is_true inode
          then (f, fill_entry f oflag inode s1)
          else if is_true created.0
          then (f, fill_entry f oflag created.0 s2)
          else (0, s2))
      else (0, s0)

  -- `read`: what it returns, the bytes that reach the buffer, and the state.
  unfoldable pub read : ℕ → ℕ → Fdt D → ℕ × List ℕ × Fdt D
  read f len s =
      let e : Entry = entry s f in
      let bytes = fs.read_inode_data e.inode e.pos (read_length e len) s.disk in
      let done = length bytes in
      if is_valid s f
      then (if is_true (bit_and e.mode 1)
          then (if leb e.size e.pos
              then (0, [], s)
              else (done, bytes, set_entry s f (record e { pos = add32 e.pos done })))
          else (2 ^ 32 - 2, [], s))
      else (2 ^ 32 - 1, [], s)

  -- The loop of `write` on fuel, from the given position and number of bytes written: the position,
  -- the number of bytes, and the disk.
  unfoldable pub write_loop : ℕ → ℕ → List ℕ → ℕ → ℕ → ℕ → ℕ → D → Option (ℕ × ℕ × D)
  write_loop zero inode buffer offset pos written total d = none
  write_loop (suc fuel) inode buffer offset pos written total d =
      let r = fs.write_inode_data inode buffer offset pos (total - written) d in
      elim (written == total) [
        | true ↦ some (pos, written, d)
        | false ↦ elim r.0 [
          | zero ↦ some (pos, written, r.1)
          | suc n ↦
              write_loop fuel inode buffer (add32 offset (suc n)) (add32 pos (suc n))
                (add32 written (suc n)) total r.1
        ]
      ]

  -- The blocks that a file of the given size uses.
  unfoldable pub blocks_used : ℕ → ℕ
  blocks_used size = if is_true size then add32 1 ((size - 1) / fs.block_size) else 0

  -- The size in the table and on the disk, after the loop.
  unfoldable pub grow : ℕ → Fdt D → Fdt D
  grow f s =
      let e : Entry = entry s f in
      if ltb e.size e.pos
      then (let s1 = set_entry s f (record e { size = e.pos }) in
          record s1 { disk = fs.update_size e.inode e.pos s1.disk })
      else s

  unfoldable pub after_write : ℕ → Fdt D → Option (ℕ × ℕ × D) → Option (ℕ × Fdt D)
  after_write f s none = none
  after_write f s (some (pos, written, d)) =
      let s1 : Fdt D = record s { disk = d } in
      some (written, grow f (set_entry s1 f (record (entry s1 f) { pos = pos })))

  -- `write`: what it returns, and the state.
  unfoldable pub write : ℕ → ℕ → List ℕ → ℕ → ℕ → Fdt D → Option (ℕ × Fdt D)
  write fuel f buffer offset total s =
      let e : Entry = entry s f in
      let to_use = add32 1 (sub32 (add32 e.pos total) 1 / fs.block_size) in
      let used = blocks_used e.size in
      let prepared = fs.prepare_blocks e.inode used to_use s.disk in
      let s1 : Fdt D = record s { disk = prepared.1 } in
      if is_valid s f
      then (if is_true (bit_and e.mode 2)
          then (if total == 0
              then some (0, s)
              else if ltb used to_use && not (prepared.0 == to_use - used)
              then some (2 ^ 32 - 3, s1)
              else after_write f s1 (write_loop fuel e.inode buffer offset e.pos 0 total s1.disk))
          else some (2 ^ 32 - 2, s))
      else some (2 ^ 32 - 1, s)

-- An `s_int32` is its bit pattern.
abbrev pub is_negative : ℕ → Bool
is_negative x = leb (2 ^ 31) x

unfoldable pub seek_set : Entry → ℕ → ℕ
seek_set e offset = if is_negative offset then 0 else if ltb e.size offset then e.size else offset

unfoldable pub seek_cur : Entry → ℕ → ℕ
seek_cur e offset =
    if is_negative offset && ltb e.pos (sub32 0 offset)
    then 0
    else if not (is_negative offset) && is_true offset && ltb e.size (add32 offset e.pos)
    then e.size
    else add32 e.pos offset

unfoldable pub seek_end : Entry → ℕ → ℕ
seek_end e offset =
    if is_negative offset then e.size else if ltb e.size offset then 0 else sub32 e.pos offset

-- The position that `lseek` sets; `none` for an invalid command.
unfoldable pub seek_to : Entry → ℕ → ℕ → Option ℕ
seek_to e offset seek =
    if seek == 1
    then some (seek_set e offset)
    else if seek == 2
    then some (seek_cur e offset)
    else if seek == 4
    then some (seek_end e offset)
    else none

unfoldable pub lseek : {D : Type 0} → ℕ → ℕ → ℕ → Fdt D → ℕ × Fdt D
lseek f offset seek s = elim (seek_to (entry s f) offset seek) [
  | none ↦ (0, s)
  | some pos ↦ (pos, set_entry s f (record (entry s f) { pos = pos }))
]

-- The last used entry above `i`, with the rounds that are left.
unfoldable pub last_used : ℕ → (ℕ → Entry) → ℕ → Option ℕ
last_used zero t i = none
last_used (suc n) t i = elim (is_true (t (i + suc n)).inode) [
  | true ↦ some (i + suc n)
  | false ↦ last_used n t i
]

-- The new table, the old one, and the numbers that the descriptors point at.
abbrev pub Shrinking : Type 0
Shrinking = (ℕ → Entry) × (ℕ → Entry) × (ℕ → ℕ)

-- One entry of the new table. The variable `copy` of the code is true throughout: the test that
-- would clear it compares with a number that the search never ends at.
unfoldable pub shrink_entry : ℕ → ℕ → Shrinking → Shrinking
shrink_entry size i (tmp, t, index) = elim (is_true (t i).inode) [
  | true ↦ (put tmp i (t i), t, index)
  | false ↦ elim (last_used (size - 1 - i) t i) [
    | none ↦ (tmp, t, index)
    | some j ↦ (put tmp i (t j), put t j (record (t j) { inode = 0 }), put index (t j).this i)
  ]
]

unfoldable pub shrink_from : ℕ → ℕ → ℕ → Shrinking → Shrinking
shrink_from zero size i w = w
shrink_from (suc n) size i w = shrink_from n size (i + 1) (shrink_entry size i w)

-- The table at half its size; `junk` is what the allocation holds.
unfoldable pub shrink : {D : Type 0} → (ℕ → Entry) → Fdt D → Fdt D
shrink junk s =
    let w : Shrinking = shrink_from (s.fdt_size / 4) s.fdt_size 0 (junk, s.fdt, s.index) in
    record s { fdt = w.0; index = w.2; fdt_size = s.fdt_size / 2 }

unfoldable pub close : {D : Type 0} → (ℕ → Entry) → ℕ → Fdt D → Fdt D
close junk f s =
    let s1 = set_entry s f (record (entry s f) { inode = 0; this = 0 }) in
    let num = sub32 s.fdt_num 1 in
    let s2 = record s1 { fdt_num = num } in
    if not (is_true f) || not (is_true (entry s f).inode)
    then s
    else if ltb 64 num && ltb num (s.fdt_size / 4)
    then shrink junk s2
    else s2

-- `fs_inter_install`: 256 entries, all free; `junk` is what the allocation holds.
unfoldable pub fs_inter_install : {D : Type 0} → (ℕ → Entry) → Fdt D → Fdt D
fs_inter_install junk s = record s {
  fdt = λ i. if ltb i 256 then record (junk i) { inode = 0 } else junk i;
  fdt_size = 256;
}
