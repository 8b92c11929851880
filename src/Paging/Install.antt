-- ===== src/Paging/Install.antt =====
-- `paging_install` of src/paging.c: the kernel's directory, in which the memory up to the end of the
-- kernel's heap is mapped to itself.
use mariobr_os.Base.{
  ℕ, zero, suc, ◌+◌, ◌/◌, ◌^◌, ◌>>=◌, true, false, Option, none, some, put, ltb, add32,
}
use mariobr_os.Math.{floor_ratio, ceil_ratio}
use mariobr_os.Bitset.{Bitset, empty_bitset, set_bit}
use mariobr_os.Paging.{Directory, set_page, page_at, get_page, map_page_to_frame}
use mariobr_os.Paging.Spaces.{Spaces, zero_directory, clone_directory, user_heap_from}

-- The first frame is in use, as 0 stands for no frame.
unfoldable pub initial_frames : ℕ → Bitset
initial_frames upper_memory = set_bit (empty_bitset (floor_ratio upper_memory 0x1000)) 0 1

-- The directory with its first tables, which stand in frames from `tables_frame` on.
unfoldable pub kernel_tables : ℕ → ℕ → Directory
kernel_tables zero tables_frame = zero_directory
kernel_tables (suc t) tables_frame =
    let d : Directory = kernel_tables t tables_frame in
    record d {
      made = put d.made t true;
      entries =
          put d.entries t
            (record { present = true; rw = false; user = true; address = tables_frame + t });
    }

-- `map_page_to_frame(get_page(kernel_directory, frame, TRUE, FALSE), frame / 0x1000, TRUE, FALSE)`
unfoldable pub map_itself : ℕ → Directory → Bitset → Option (Directory × Bitset)
map_itself frame dir frames = elim (get_page 0 dir frame true false) [
  | none ↦ none
  | some d ↦ elim (map_page_to_frame (page_at d frame) (frame / 0x1000) true false frames) [
    | none ↦ none
    | some (p, fs) ↦ some (set_page d frame p, fs)
  ]
]

-- The loop over the frames below `end`, with the rounds that are left.
unfoldable pub identity_map : ℕ → ℕ → ℕ → Directory → Bitset → Option (Directory × Bitset)
identity_map zero frame end dir frames = none
identity_map (suc n) frame end dir frames = elim (ltb frame end) [
  | false ↦ some (dir, frames)
  | true ↦ elim (map_itself frame dir frames) [
    | none ↦ none
    | some (d, fs) ↦ identity_map n (add32 frame 0x1000) end d fs
  ]
]

-- The spaces and the start of the heaps of the processes; `end` is `unallocated_mem`. The allocations
-- for the clone grow the kernel's heap: `grow` is what each makes of the kernel's directory, and
-- `taken` what they make of the frames.
unfoldable pub paging_install :
    ℕ → ℕ → ℕ → (ℕ → ℕ) → (ℕ → Directory → Directory) → (Bitset → Bitset) → Option (Spaces × ℕ)
paging_install upper_memory end tables_frame table_frame grow taken = do
  let nb_tables : ℕ = ceil_ratio (upper_memory / 0x1000) 1024
  (kernel, frames) ←
      identity_map (2 ^ 20) 0x1000 end (kernel_tables nb_tables tables_frame)
        (initial_frames upper_memory)
  (base, grown) ← clone_directory 2 grow table_frame kernel
  heap ← user_heap_from (2 ^ 20) base 0x1000
  some (record { current = grown; base = base; frames = taken frames }, heap)
