-- ===== src/Filesystem/Files.antt =====
-- src/filesystem.c: files are added to a directory, removed from it, created and deleted.
use mariobr_os.Base.{
  ◌>>=◌, ℕ, zero, suc, ◌+◌, ◌*◌, ◌/◌, ◌%◌, ◌^◌, Bool, true, false, not, ◌&&◌, ◌||◌, Option, none,
  some, List, [], ◌∷◌, put, ◌==◌, if◌then◌else◌, ltb, leb, is_true, to_int, add32, sub32, bit_and,
  bit_or, length,
}
use mariobr_os.Memory.{Bytes, store16, store32}
use mariobr_os.Filesystem.Volume.{Fs, block, dbp, hard_links, write_buf, update_inode}
use mariobr_os.Filesystem.Groups.{dec16, allocate_inode, unallocate_inode, allocate_block}
use mariobr_os.Filesystem.Contents.{erase_file_data}
use mariobr_os.Filesystem.Directories.{
  entry_inode, entry_size, name_length, file_type, read_directory, same_name, natural_size,
  set_dir_entry, slash,
}

abbrev pub file_dir : ℕ
file_dir = 2

-- The tests of `add_file` on its arguments: the error, or 0.
unfoldable pub has_slash : List ℕ → Bool
has_slash [] = false
has_slash (c ∷ name) = (c == slash) || has_slash name

abbrev starts_with_dash : List ℕ → Bool
starts_with_dash [] = false
starts_with_dash (c ∷ name) = c == 45

unfoldable pub check_name : ℕ → ℕ → List ℕ → ℕ
unfolding has_slash
check_name dir inode name =
    if dir == 0
    then 4
    else if inode == 0
    then 5
    else if is_true (length name / 2 ^ 8)
    then 3
    else if starts_with_dash name || has_slash name
    then 6
    else 0

-- The loop over the entries: `none` is a directory that has the name, else the last entry and the
-- room up to its end. A name of the directory may not be added again.
unfoldable pub last_entry : ℕ → ℕ → ℕ → ℕ → List ℕ → Bytes → Option (Option (ℕ × ℕ))
last_entry zero end e room name m = none
last_entry (suc n) end e room name m = elim (is_true (entry_inode m e) && ltb room end) [
  | false ↦ some (some (e, room))
  | true ↦
      let next = e + entry_size m e in
      elim (same_name name 0 m next) [
        | true ↦ some none
        | false ↦ last_entry n end next (room + entry_size m next) name m
      ]
]

-- `((u_int8*) ref)[8+i] = ((u_int8*) entry)[8+i]`, with the rounds that are left.
unfoldable pub copy_name : ℕ → ℕ → ℕ → ℕ → Bytes → Bytes
copy_name zero i ref e m = m
copy_name (suc n) i ref e m = copy_name n (i + 1) ref e (put m (ref + 8 + i) (m (e + 8 + i)))

-- An entry is moved to `ref` and shrunk to its natural size.
unfoldable pub move_entry : ℕ → ℕ → Bytes → Bytes
move_entry ref e m =
    let len = name_length m e in
    let m1 = store32 (put m (ref + 6) len) ref (entry_inode (put m (ref + 6) len) e) in
    let m2 = put m1 (ref + 7) (file_type m1 e) in
    copy_name len 0 ref e (store16 m2 (ref + 4) (natural_size len % 2 ^ 16))

-- The loop that shrinks the entries; the size of an entry is read after it was moved.
unfoldable pub shrink : ℕ → ℕ → ℕ → ℕ → Bytes → Option (ℕ × Bytes)
shrink zero end e ref m = none
shrink (suc n) end e ref m = elim (is_true (entry_inode m e) && ltb e end) [
  | false ↦ some (ref, m)
  | true ↦
      let m1 = move_entry ref e m in shrink n end (e + entry_size m1 e) (ref + entry_size m1 ref) m1
]

-- The new entry goes behind the last one or, where there is no room for it, behind the shrunk
-- entries: whether there is room then, and the block.
unfoldable pub place_shrunk : ℕ → ℕ → ℕ → List ℕ → Bytes → Option (Bool × Bytes)
place_shrunk block_size inode type name m = do
  (ref, m1) ← shrink (suc block_size) block_size 8 8 m
  let left : ℕ = sub32 block_size ref
  some (
      if ltb left (9 + length name)
      then (false, m1)
      else (true, (set_dir_entry ref inode type name (left % 2 ^ 16) m1).1))

unfoldable pub place_entry : ℕ → ℕ → ℕ → ℕ → ℕ → List ℕ → Bytes → Option (Bool × Bytes)
place_entry block_size e room0 inode type name m =
    let resize : ℕ = natural_size (name_length m e) % 2 ^ 16 in
    let room = add32 (sub32 room0 (entry_size m e)) resize in
    let m1 = store16 m (e + 4) resize in
    if ltb (sub32 block_size room) (9 + length name)
    then place_shrunk block_size inode type name m
    else some
        (true, (set_dir_entry (e + resize) inode type name (sub32 block_size room % 2 ^ 16) m1).1)

-- The block of the directory is written, and a directory in it is one more link to `dir`.
unfoldable pub write_directory : ℕ → ℕ → ℕ → Bytes → Fs → Fs
write_directory dir type links m s =
    let s1 = write_buf (block (dbp s.std_inode 0) s) s.block_factor (record s { std_buf = m }) in
    if is_true (bit_and type file_dir)
    then update_inode dir (record s1 { std_inode = store16 s1.std_inode 26 links })
    else s1

unfoldable pub add_file : ℕ → ℕ → ℕ → List ℕ → Fs → Option (ℕ × Fs)
add_file dir inode type name s =
    if is_true (check_name dir inode name) then some (check_name dir inode name, s) else do
      s1 ← read_directory dir s
      let m : Bytes = s1.std_buf
      r ←
          if same_name name 0 m 0
          then some none
          else last_entry (suc s1.block_size) s1.block_size 0 (entry_size m 0) name m
      elim r [
        | none ↦ some (1, s1)
        | some at ↦ do
          (placed, m1) ← place_entry s1.block_size (at.0) (at.1) inode type name m
          let links : ℕ = (hard_links s1.std_inode + 1) % 2 ^ 16
          some (
              if placed
              then (0, write_directory dir type links m1 s1)
              else (2, record s1 { std_buf = m1 }))
      ]

-- The loop of `remove_file`: the entry of the inode and the one before it.
unfoldable pub find_removed : ℕ → ℕ → ℕ → ℕ → ℕ → Bytes → Option (ℕ × ℕ)
find_removed zero end inode prec e m = none
find_removed (suc n) end inode prec e m = elim (ltb e end && not (entry_inode m e == inode)) [
  | false ↦ some (prec, e)
  | true ↦ find_removed n end inode (prec + entry_size m prec) (e + entry_size m e) m
]

unfoldable pub remove_file : ℕ → ℕ → Fs → Option (ℕ × Fs)
remove_file dir inode s = if dir == 0 then some (4, s) else if inode == 0 then some (5, s) else do
  s1 ← read_directory dir s
  let m : Bytes = s1.std_buf
  let first : ℕ = entry_size m 0
  (prec, e) ←
      find_removed (suc s1.block_size) s1.block_size inode first (first + entry_size m first) m
  let size : ℕ = (entry_size m prec + entry_size m e) % 2 ^ 16
  let m1 : Bytes = store16 m (prec + 4) size
  some (
      if leb s1.block_size e
      then (1, s1)
      else (0, write_directory dir (file_type m1 e) (dec16 (hard_links s1.std_inode)) m1 s1))

unfoldable pub delete_file : ℕ → ℕ → Fs → Option (ℕ × Fs)
delete_file dir inode s = do
  (error, s1) ← remove_file dir inode s
  s2 ← if is_true error then some s1 else erase_file_data inode s1
  let (missing, s3) = unallocate_inode inode s2
  if is_true error then some (error, s1) else if is_true missing then none else some (0, s3)

-- The inode of a new file; the fields that are not named keep what `std_inode` had.
unfoldable pub zero_pointers : ℕ → ℕ → Bytes → Bytes
zero_pointers zero a m = m
zero_pointers (suc n) a m = zero_pointers n (a + 4) (store32 m a 0)

unfoldable pub new_inode : ℕ → Bool → Fs → Bytes
new_inode type is_a_dir s =
    let d = to_int is_a_dir in
    let m1 = store16 (store16 s.std_inode 0 (type % 2 ^ 16)) 26 (1 + d) in
    let m2 = store32 (store32 m1 28 (s.block_factor * d)) 4 (s.block_size * d) in
    zero_pointers 15 40 m2

-- The block of a new directory, with the entries of itself and of its father.
unfoldable pub fill_directory : ℕ → ℕ → ℕ → Fs → Fs
fill_directory num father n s =
    let (size, m1) = set_dir_entry 0 num file_dir (46 ∷ []) 0 s.std_buf in
    let m2 =
      (set_dir_entry size father file_dir (46 ∷ (46 ∷ [])) (sub32 s.block_size size % 2 ^ 16)
        m1).1 in
    write_buf (block n s) 1 (record s { std_inode = store32 s.std_inode 40 n; std_buf = m2 })

-- The block of a new directory: without one its inode is given back.
unfoldable pub fill_new_directory : ℕ → ℕ → Fs → Option (ℕ × Fs)
fill_new_directory num father s = do
  (n, s1) ← allocate_block 1 s
  some (
      if n == 0
      then (0, (unallocate_inode num s1).1)
      else (num, update_inode num (fill_directory num father n s1)))

unfoldable pub create_file : ℕ → List ℕ → ℕ → ℕ → Fs → Option (ℕ × Fs)
create_file father name type ftype s =
    if father == 0
    then some (0, s)
    else let (num, s1) = allocate_inode s in
      if num == 0 then some (0, s1) else do
        (error, s2) ← add_file father num ftype name s1
        let is_a_dir : Bool = is_true (bit_and type 0x4000)
        let s3 : Fs = record s2 { std_inode = new_inode type is_a_dir s2 }
        if is_true error
            then some (0, (unallocate_inode num s2).1)
            else if not is_a_dir
            then some (num, update_inode num s3)
            else fill_new_directory num father s3

unfoldable pub create_dir : ℕ → List ℕ → Fs → Option (ℕ × Fs)
create_dir father name s = create_file father name (bit_or 0x4000 0x1ff) file_dir s
