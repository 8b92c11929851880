-- ===== src/Filesystem/Directories.antt =====
-- src/filesystem.c: the entries of a directory, in its one block. An entry is its offset in
-- `std_buf`, and `sizeof(dir_entry)` is 9.
use mariobr_os.Base.{
  ◌>>=◌, ℕ, zero, suc, ◌+◌, ◌-◌, ◌*◌, ◌/◌, ◌%◌, ◌^◌, Bool, true, false, not, ◌&&◌, ◌||◌, Option,
  none, some, List, [], ◌∷◌, put, ◌==◌, if◌then◌else◌, ltb, is_true, bit_and, length,
}
use mariobr_os.Memory.{Bytes, load16, load32, store16, store32}
use mariobr_os.Text.{str_split}
use mariobr_os.Filesystem.Volume.{Fs, inode_type, set_inode}
use mariobr_os.Filesystem.Contents.{read_inode_data}

abbrev pub entry_inode : Bytes → ℕ → ℕ
entry_inode m e = load32 m e

abbrev pub entry_size : Bytes → ℕ → ℕ
entry_size m e = load16 m (e + 4)

abbrev pub name_length : Bytes → ℕ → ℕ
name_length m e = m (e + 6)

abbrev pub file_type : Bytes → ℕ → ℕ
file_type m e = m (e + 7)

-- `read_inode_data(inode, std_buf, 0, block_size)`
unfoldable pub read_directory : ℕ → Fs → Option Fs
read_directory inode s = do
  (w, b, s1) ← read_inode_data inode s.std_buf 0 s.block_size s
  some (record s1 { std_buf = b })

-- The comparison of a name with that of entry `e`, from byte `i` of the entry's name on: both loops
-- with the test after them.
unfoldable pub same_name : List ℕ → ℕ → Bytes → ℕ → Bool
same_name [] i m e = (0 == m (e + 8 + i)) || (i == name_length m e)
same_name (c ∷ name) i m e = elim (not (m (e + 8 + i) == 0) && (c == m (e + 8 + i))) [
  | true ↦ same_name name (i + 1) m e
  | false ↦ c == m (e + 8 + i)
]

-- The loop over the entries for one name: the inode that is found, or the offset where it ends.
pub data Found : Type 0 where
  found : ℕ → Found
  ended : ℕ → Found

unfoldable pub look_up : ℕ → ℕ → ℕ → List ℕ → Bytes → Option Found
look_up zero end e name m = none
look_up (suc n) end e name m = elim (is_true (entry_inode m e) && ltb e end) [
  | false ↦ some (ended e)
  | true ↦ elim (same_name name 0 m e) [
    | true ↦ some (found (entry_inode m e))
    | false ↦ look_up n end (e + entry_size m e) name m
  ]
]

-- A search that ends at the end of the block finds nothing; one that ends before or behind it goes
-- on with the same directory.
abbrev pub next_inode : ℕ → ℕ → Found → Option ℕ
next_inode end inode (found i) = some i
next_inode end inode (ended e) = if e == end then none else some inode

-- One round of the loop over the words of the path: the directory's block is read and searched.
-- With every entry at least a byte long, the number of bytes of a block bounds that of the entries.
unfoldable pub step_into : List ℕ → ℕ → Fs → Option (Option ℕ × Fs)
step_into name inode s = do
  s1 ← read_directory inode s
  r ← look_up (suc s1.block_size) s1.block_size 0 name s1.std_buf
  some (next_inode s1.block_size inode r, s1)

-- The loop ends at the last word, before it if that is empty; the result is 0 if a name is missing.
unfoldable pub walk : List (List ℕ) → ℕ → Fs → Option (ℕ × Fs)
walk [] inode s = none
walk (name ∷ []) inode s =
    if length name == 0
    then some (inode, s)
    else do (r, s1) ← step_into name inode s; some (elim r [ some i ↦ i | none ↦ 0 ], s1)
walk (name ∷ (next ∷ path)) inode s = do
  (r, s1) ← step_into name inode s
  elim r [ some i ↦ walk (next ∷ path) i s1 | none ↦ some (0, s1) ]

abbrev pub slash : ℕ
slash = 47

abbrev without_slash : List ℕ → List ℕ
without_slash [] = []
without_slash (c ∷ s) = if c == slash then s else c ∷ s

abbrev starts_with_slash : List ℕ → Bool
starts_with_slash [] = false
starts_with_slash (c ∷ s) = c == slash

unfoldable pub find_inode : List ℕ → ℕ → Fs → Option (ℕ × Fs)
find_inode str_path root s = do
  path ← str_split (without_slash str_path) slash true
  walk path (if starts_with_slash str_path then 2 else root) s

unfoldable pub find_dir : List ℕ → ℕ → Fs → Option (ℕ × Fs)
find_dir str_path root s = do
  (inode, s1) ← find_inode str_path root s
  s2 ← if inode == 0 then some s1 else set_inode inode s1
  some (
    if (inode == 0) || not (is_true (bit_and (inode_type s2.std_inode) 0x4000)) then 0 else inode,
    s2,
  )

-- `name[i]` for `i < len`
unfoldable pub put_name : List ℕ → ℕ → Bytes → Bytes
put_name [] a m = m
put_name (c ∷ name) a m = put_name name (a + 1) (put m a c)

abbrev pub natural_size : ℕ → ℕ
natural_size len = 4 * (1 + (len + 9 - 1) / 4)

-- The name has less than 256 bytes, so its length is a byte; a size of 0 stands for the natural one.
unfoldable pub set_dir_entry : ℕ → ℕ → ℕ → List ℕ → ℕ → Bytes → ℕ × Bytes
set_dir_entry e inode type name size m =
    let len = length name % 2 ^ 8 in
    let ret = (if size == 0 then natural_size len else 4 * (1 + (size - 1) / 4)) % 2 ^ 16 in
    let m1 = put (put (store16 (store32 m e inode) (e + 4) ret) (e + 6) len) (e + 7) type in
    (ret, put_name name (e + 8) m1)
