-- ===== src/Paging/Forks.antt =====
-- `fork_page_dir` of src/paging.c: the address space of a child. A page that the base directory does
-- not have is copied in the physical memory, through two pages of the current directory.
use mariobr_os.Base.{
  ℕ, zero, suc, ◌+◌, ◌*◌, ◌/◌, ◌%◌, ◌>>=◌, Bool, true, false, not, ◌&&◌, ◌||◌, Option, none, some,
  put, ◌==◌, if◌then◌else◌, is_true, u32_mod, add32,
}
use mariobr_os.Bitset.{set_bit, first_false_bit, all_ones}
use mariobr_os.Memory.{Bytes}
use mariobr_os.Paging.{
  Page, Directory, set_page, page_at, get_physical_address, request_physical_space,
  free_virtual_space,
}
use mariobr_os.Paging.Spaces.{Spaces, zero_directory, free_page_dir}

-- The directory of the child, with the physical memory.
pub record Forking : Type 0 where
  pub fork : Directory
  pub spaces : Spaces
  pub ram : Bytes

-- `mem_copy` of the bytes below `j`, each at its address in the current directory.
unfoldable pub copy_page : ℕ → Directory → ℕ → ℕ → Bytes → Bytes
copy_page zero current dest source ram = ram
copy_page (suc j) current dest source ram =
    let r = copy_page j current dest source ram in
    put r (get_physical_address current (add32 dest j))
      (r (get_physical_address current (add32 source j)))

-- The page gets the frame, which is in use by now; whether there was room to map both pages.
unfoldable pub copy_frame : ℕ → ℕ → Directory → ℕ → Forking → Option (Bool × Forking)
copy_frame frame virtual dir table_frame s = do
  let physical : ℕ = (frame * 0x1000) % u32_mod
  (dest, c1, f1) ←
      request_physical_space table_frame s.spaces.current physical true false s.spaces.frames
  (source, c2, f2) ←
      if is_true dest
      then request_physical_space table_frame c1 (get_physical_address dir virtual) true false f1
      else some (0, c1, f1)
  (c3, f3) ←
      if is_true source then free_virtual_space table_frame c2 source false f2 else some (c2, f2)
  (c4, f4) ← if is_true dest then free_virtual_space table_frame c3 dest false f3 else some (c3, f3)
  let page : Page = page_at s.fork virtual
  let left : Spaces = record s.spaces { current = c4; frames = f4 }
  some (
      if is_true dest && is_true source
      then (
        true,
        record {
          fork = set_page s.fork virtual (record page { address = physical / 0x1000 });
          spaces = left;
          ram = copy_page 0x1000 c2 dest source s.ram;
        },
      )
      else (false, record s { spaces = left }))

-- A page of the parent.
unfoldable pub fork_page : ℕ → Directory → ℕ → Forking → Option (Bool × Forking)
fork_page virtual dir table_frame s =
    let frame = first_false_bit s.spaces.frames in
    if not (page_at dir virtual).present || is_true (get_physical_address s.spaces.base virtual)
    then some (true, s)
    else if frame == all_ones
    then some (false, s)
    else let taken : Spaces = record s.spaces { frames = set_bit s.spaces.frames frame 1 } in
      copy_frame frame virtual dir table_frame (record s { spaces = taken })

-- The pages of a table, from the page `i` on.
unfoldable pub fork_pages : ℕ → ℕ → ℕ → Directory → ℕ → Forking → Option (Bool × Forking)
fork_pages zero t i dir table_frame s = some (true, s)
fork_pages (suc n) t i dir table_frame s =
    elim (fork_page ((t * 1024 * 0x1000 + i * 0x1000) % u32_mod) dir table_frame s) [
      | none ↦ none
      | some (ok, s1) ↦ elim ok [
        | true ↦ fork_pages n t (i + 1) dir table_frame s1
        | false ↦ some (false, s1)
      ]
    ]

-- The child's copy of a table of the parent, at the given frame.
abbrev pub copy_table : ℕ → ℕ → Directory → Directory → Directory
copy_table t frame dir fork = record {
  entries = put fork.entries t (record (dir.entries t) { address = frame });
  made = put fork.made t true;
  tables = put fork.tables t (dir.tables t);
}

-- The tables from `t` on; `new_table` is the frame of a table's copy, unless there is no memory.
unfoldable pub fork_tables :
    ℕ → ℕ → Directory → (ℕ → Option ℕ) → ℕ → Forking → Option (Bool × Forking)
fork_tables zero t dir new_table table_frame s = some (true, s)
fork_tables (suc n) t dir new_table table_frame s = elim ((dir.entries t).present) [
  | false ↦ fork_tables n (t + 1) dir new_table table_frame s
  | true ↦ elim (new_table t) [
    | none ↦ some (false, s)
    | some frame ↦
        elim (fork_pages 1024 t 0 dir table_frame
          (record s { fork = copy_table t frame dir s.fork })) [
            | none ↦ none
            | some (ok, s1) ↦ elim ok [
              | true ↦ fork_tables n (t + 1) dir new_table table_frame s1
              | false ↦ some (false, s1)
            ]
          ]
  ]
]

-- The result of a fork that failed: what the child has so far is freed.
unfoldable pub abandon : Forking → Option (Option Directory × Spaces × Bytes)
abandon s = elim (free_page_dir s.spaces.base s.fork s.spaces.frames) [
  | none ↦ none
  | some fs ↦ some (none, record s.spaces { frames = fs }, s.ram)
]

-- The child's directory, or the null pointer. `room` is whether there is memory for it.
unfoldable pub fork_page_dir :
    Bool
    → Directory
    → (ℕ → Option ℕ)
    → ℕ
    → Spaces
    → Bytes
    → Option (Option Directory × Spaces × Bytes)
fork_page_dir room dir new_table table_frame s ram =
    if not room
    then some (none, s, ram)
    else elim (fork_tables 1024 0 dir new_table table_frame
        (record { fork = zero_directory; spaces = s; ram = ram })) [
          | none ↦ none
          | some (ok, r) ↦ elim ok [
            | true ↦ some (some r.fork, r.spaces, r.ram)
            | false ↦ abandon r
          ]
        ]
