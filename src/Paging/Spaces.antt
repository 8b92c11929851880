-- ===== src/Paging/Spaces.antt =====
-- src/paging.c: whole address spaces. The frames of the new tables are arguments. An allocation can
-- map pages for the kernel's heap: while a directory is cloned this is a function of the directory,
-- for each allocation; elsewhere it is not followed.
use mariobr_os.Base.{
  ◌>>=◌, ℕ, zero, suc, ◌+◌, ◌*◌, ◌%◌, Bool, true, false, not, ◌&&◌, Option, none, some, put,
  if◌then◌else◌, is_true, u32_mod, add32,
}
use mariobr_os.Bitset.{Bitset}
use mariobr_os.Paging.{
  Directory, table_index, get_physical_address, request_virtual_space, request_physical_space,
  free_virtual_space,
}

-- A directory that is set to zeros.
abbrev pub zero_directory : Directory
zero_directory = record {
  entries = λ i. record { present = false; rw = false; user = false; address = 0 };
  made = λ i. false;
  tables = λ i j. record { present = false; rw = false; user = false; address = 0 };
}

-- The copy of a table, with its entry.
abbrev pub add_table : ℕ → Directory → Directory → Directory
add_table t dir copy = record {
  entries = put copy.entries t (dir.entries t);
  made = put copy.made t true;
  tables = put copy.tables t (dir.tables t);
}

-- The search for a difference in the tables below `t`; whether there was none, the copy, and the
-- directory. `grow t` is what the allocation of the copy of table `t` makes of the directory.
unfoldable pub clone_pass :
    ℕ → (ℕ → Directory → Directory) → Directory → Directory → Bool × Directory × Directory
clone_pass zero grow dir copy = (true, copy, dir)
clone_pass (suc t) grow dir copy =
    let (equal, c, d) = clone_pass t grow dir copy in
    if (d.entries t).present && not (c.entries t).present
    then (false, add_table t (grow t d) c, grow t d)
    else (equal, c, d)

-- The searches until there is no difference.
unfoldable pub clone_loop :
    ℕ → (ℕ → Directory → Directory) → Directory → Directory → Option (Directory × Directory)
clone_loop zero grow dir copy = none
clone_loop (suc n) grow dir copy =
    let (equal, c, d) = clone_pass 1024 grow dir copy in
    elim equal [ true ↦ some (c, d) | false ↦ clone_loop n grow d c ]

-- The physical addresses of the tables below `i`.
unfoldable pub link_tables : ℕ → (ℕ → ℕ) → Directory → Directory → Directory
link_tables zero table_frame dir copy = copy
link_tables (suc i) table_frame dir copy =
    let c = link_tables i table_frame dir copy in
    if (dir.entries i).present
    then record c { entries = put c.entries i (record (c.entries i) { address = table_frame i }) }
    else c

-- The copy and the directory; `grow 1024` is what the allocation of the copy itself does.
unfoldable pub clone_directory :
    ℕ → (ℕ → Directory → Directory) → (ℕ → ℕ) → Directory → Option (Directory × Directory)
clone_directory fuel grow table_frame dir =
    elim (clone_loop fuel grow (grow 1024 dir) zero_directory) [
      | none ↦ none
      | some (copy, d) ↦ some (link_tables 1024 table_frame d copy, d)
    ]

-- `START_OF_USER_HEAP`: the first page that is not mapped, from `address` on.
unfoldable pub user_heap_from : ℕ → Directory → ℕ → Option ℕ
user_heap_from zero base address = none
user_heap_from (suc n) base address = elim (is_true (get_physical_address base address)) [
  | true ↦ user_heap_from n base (add32 address 0x1000)
  | false ↦ some address
]

-- The pages of the user code, from an address on to the end of the memory.
unfoldable pub request_code : ℕ → (ℕ → ℕ) → ℕ → Directory → Bitset → Option (Directory × Bitset)
request_code zero table_frame address dir frames = some (dir, frames)
request_code (suc n) table_frame address dir frames =
    elim (request_virtual_space (table_frame address) dir address false true frames) [
      | none ↦ none
      | some (ok, d, fs) ↦ elim ok [
        | true ↦ request_code n table_frame (add32 address 0x1000) d fs
        | false ↦ none
      ]
    ]

-- A page of the process; `none` is a `throw`.
unfoldable pub request_user : ℕ → ℕ → Directory → Bitset → Option (Directory × Bitset)
request_user frame address dir frames =
    elim (request_virtual_space frame dir address false true frames) [
      | none ↦ none
      | some (ok, d, fs) ↦ elim ok [ true ↦ some (d, fs) | false ↦ none ]
    ]

-- The directories of `new_page_dir`: the kernel's current one, and the one that is copied.
pub record Spaces : Type 0 where
  pub current : Directory
  pub base : Directory
  pub frames : Bitset

-- The new directory, the current one, and the frames. The page of the heap is mapped for a while in
-- the current directory, where `malloc_new_state` writes to it. The kernel's heap is not in the base
-- directory, so that no allocation changes that one.
unfoldable pub new_page_dir : ℕ → (ℕ → ℕ) → ℕ → ℕ → Spaces → Option (Directory × Spaces)
new_page_dir fuel table_frame user_stack user_heap s = do
  let frame_at : ℕ → ℕ = λ address. table_frame (table_index address)
  (copy, base) ← clone_directory fuel (λ n d. d) table_frame s.base
  (d1, f1) ← request_code 16 frame_at 0xffff_0000 copy s.frames
  (d2, f2) ← request_user (frame_at user_stack) user_stack d1 f1
  (d3, f3) ← request_user (frame_at user_heap) user_heap d2 f2
  (heap_virtual, c1, f4) ←
      request_physical_space (frame_at user_heap) s.current (get_physical_address d3 user_heap) true
        false f3
  (c2, f5) ← free_virtual_space (frame_at user_heap) c1 heap_virtual false f4
  some (d3, record s { current = c2; frames = f5 })

-- `free_page_dir` in the pages of a table, from the page `i` on.
unfoldable pub free_pages : ℕ → ℕ → ℕ → Directory → Directory → Bitset → Option (Directory × Bitset)
free_pages zero t i base dir frames = some (dir, frames)
free_pages (suc n) t i base dir frames =
    let virtual = (0x1000 * (i + 1024 * t)) % u32_mod in
    elim (is_true (get_physical_address base virtual)) [
      | true ↦ free_pages n t (i + 1) base dir frames
      | false ↦ elim (free_virtual_space 0 dir virtual true frames) [
        | none ↦ none
        | some (d, fs) ↦ free_pages n t (i + 1) base d fs
      ]
    ]

unfoldable pub free_tables : ℕ → ℕ → Directory → Directory → Bitset → Option Bitset
free_tables zero t base dir frames = some frames
free_tables (suc n) t base dir frames = elim ((dir.entries t).present) [
  | true ↦ elim (free_pages 1024 t 0 base dir frames) [
    | none ↦ none
    | some (d, fs) ↦ free_tables n (t + 1) base d fs
  ]
  | false ↦ free_tables n (t + 1) base dir frames
]

-- The frames that are left in use.
unfoldable pub free_page_dir : Directory → Directory → Bitset → Option Bitset
free_page_dir base dir frames = free_tables 1024 0 base dir frames
