-- ===== src/Elf.antt =====
-- src/elf.c: an ELF file in the memory is checked, and its segments are written to the pages of a new
-- process, which are mapped in the kernel's directory at the addresses of an array.
pub mod Views
pub mod Segments
pub mod Image
mod Tests
use mariobr_os.Base.{
  ℕ, zero, suc, ◌+◌, ◌*◌, ◌/◌, ◌%◌, ◌^◌, Bool, true, false, ◌&&◌, Option, none, some, ◌==◌,
  if◌then◌else◌, ltb, leb, put, u32_mod, add32, sub32,
}
use mariobr_os.Memory.{Bytes, load16, load32}

-- `START_OF_USER_CODE`, as paging_install sets it.
abbrev pub start_of_user_code : ℕ
start_of_user_code = 0xffff_0000

-- `ADR`: the kernel's address of an address of the process.
unfoldable pub adr : (ℕ → ℕ) → ℕ → ℕ
adr virtuals v =
    let offset = sub32 v start_of_user_code in add32 (virtuals (offset / 0x1000)) (offset % 0x1000)

-- The loops take a byte a round.
unfoldable pub mem_set_page : ℕ → ℕ → ℕ → (ℕ → ℕ) → Bytes → Bytes
mem_set_page str c zero virtuals m = m
mem_set_page str c (suc i) virtuals m =
    put (mem_set_page str c i virtuals m) (adr virtuals (add32 str i)) c

unfoldable pub mem_copy_page : ℕ → ℕ → ℕ → (ℕ → ℕ) → Bytes → Bytes
mem_copy_page dest source zero virtuals m = m
mem_copy_page dest source (suc i) virtuals m =
    let m1 = mem_copy_page dest source i virtuals m in
    put m1 (adr virtuals (add32 dest i)) (m1 (add32 source i))

-- The fields of the header of a file that are used, where the file stands at `f`.
abbrev pub entry_point : Bytes → ℕ → ℕ
entry_point m f = load32 m (f + 24)

abbrev pub program_header_table : Bytes → ℕ → ℕ
program_header_table m f = load32 m (f + 28)

abbrev pub pht_entry_size : Bytes → ℕ → ℕ
pht_entry_size m f = load16 m (f + 42)

abbrev pub pht_entry_nb : Bytes → ℕ → ℕ
pht_entry_nb m f = load16 m (f + 44)

unfoldable pub valid_header : Bytes → ℕ → Bool
valid_header m f =
    (m f == 0x7f)
    && (m (f + 1) == 0x45)
    && (m (f + 2) == 0x4c)
    && (m (f + 3) == 0x46)
    && (m (f + 4) == 1)
    && (m (f + 5) == 1)
    && (load16 m (f + 16) == 2)
    && (load16 m (f + 18) == 3)
    && leb start_of_user_code (entry_point m f)

-- A program header entry.
pub record Segment : Type 0 where
  pub segment_type : ℕ
  pub segment_offset : ℕ
  pub segment_virtual_address : ℕ
  pub segment_size_in_file : ℕ
  pub segment_size_in_memory : ℕ

unfoldable pub segment_at : Bytes → ℕ → Segment
segment_at m a = record {
  segment_type = load32 m a;
  segment_offset = load32 m (a + 4);
  segment_virtual_address = load32 m (a + 8);
  segment_size_in_file = load32 m (a + 16);
  segment_size_in_memory = load32 m (a + 20);
}

-- The entry of a segment's number.
unfoldable pub entry_at : Bytes → ℕ → ℕ → ℕ
entry_at m f i = add32 (add32 f (program_header_table m f)) ((i * pht_entry_size m f) % u32_mod)

-- A round for the entry at `a`. The offset and the size in the file are read after the zeros are
-- written. The entries of `virtuals` from 16 on are what lies behind the array.
unfoldable pub load_segment : ℕ → ℕ → (ℕ → ℕ) → Bytes → Bytes
load_segment f a virtuals m =
    let address = load32 m (a + 8) in
    let m1 = mem_set_page address 0 (load32 m (a + 20)) virtuals m in
    if load32 m a == 1
    then mem_copy_page address (add32 f (load32 m1 (a + 4))) (load32 m1 (a + 16)) virtuals m1
    else m

-- The loop over the segments from number `i` on, which reads their count anew in each round; `none`
-- is the end of the fuel.
unfoldable pub load_segments : ℕ → ℕ → ℕ → (ℕ → ℕ) → Bytes → Option Bytes
load_segments zero i f virtuals m = none
load_segments (suc n) i f virtuals m = elim (ltb i (pht_entry_nb m f)) [
  | true ↦ load_segments n (suc i) f virtuals (load_segment f (entry_at m f i) virtuals m)
  | false ↦ some m
]

-- The entry point and the memory; `none` is a `throw`.
unfoldable pub check_and_load : ℕ → (ℕ → ℕ) → Bytes → Option (ℕ × Bytes)
check_and_load f virtuals m = elim (valid_header m f) [
  | true ↦ elim (load_segments (2 ^ 16) 0 f virtuals m) [
    | none ↦ none
    | some m1 ↦ some (entry_point m1 f, m1)
  ]
  | false ↦ none
]
