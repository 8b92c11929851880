-- ===== src/Paging.antt =====
-- src/paging.c and src/paging.h: page directories of two levels, over the bitset of the frames in
-- use. A directory is a value: its entries, and the pages of its tables. What a throw leaves is
-- `none`. The flags of an entry that the code never reads or writes are left out, and so is the
-- flush of the processor's cache. An allocation is a fresh object: the pages that the kernel heap
-- may need for it are not followed.
pub mod Translation
pub mod Requests
pub mod Spaces
pub mod Passes
pub mod Cloning
pub mod Forks
pub mod Creation
pub mod Install
pub mod Identity
pub mod Start
mod Tests
use mariobr_os.Base.{
  ℕ, zero, suc, ◌+◌, ◌-◌, ◌*◌, ◌/◌, ◌%◌, ◌^◌, Bool, true, false, not, ◌&&◌, ◌||◌, Option, none,
  some, put, ◌==◌, if◌then◌else◌, leb, is_true, u32_mod,
}
use mariobr_os.Bitset.{Bitset, set_bit, first_false_bit, all_ones}

-- `page_table_entry_t`
pub record Page : Type 0 where
  pub present : Bool
  pub rw : Bool
  pub user : Bool
  pub address : ℕ

-- `page_directory_entry_t`
pub record TableEntry : Type 0 where
  pub present : Bool
  pub rw : Bool
  pub user : Bool
  pub address : ℕ

-- `page_directory_t`: whether the pointer to a table is set, and the pages of the tables.
pub record Directory : Type 0 where
  pub entries : ℕ → TableEntry
  pub made : ℕ → Bool
  pub tables : ℕ → ℕ → Page

abbrev pub table_index : ℕ → ℕ
table_index address = address / 0x1000 / 1024

abbrev pub page_index : ℕ → ℕ
page_index address = address / 0x1000 % 1024

abbrev pub page_at : Directory → ℕ → Page
page_at dir address = dir.tables (table_index address) (page_index address)

-- `*get_page(dir, address) = page`, once the table is there.
abbrev pub set_page : Directory → ℕ → Page → Directory
set_page dir address page =
    let t = table_index address in
    record dir { tables = put dir.tables t (put (dir.tables t) (page_index address) page) }

unfoldable pub get_physical_address : Directory → ℕ → ℕ
get_physical_address dir address =
    let page = page_at dir address in
    if (dir.entries (table_index address)).present && page.present
    then (0x1000 * page.address + address % 0x1000) % u32_mod
    else 0

unfoldable pub map_page_to_frame : Page → ℕ → Bool → Bool → Bitset → Option (Page × Bitset)
map_page_to_frame page frame is_kernel is_writable frames =
    if frame == 0 || leb 0x100000 frame
    then none
    else if page.present
    then none
    else some (
      record page { present = true; rw = is_writable; user = not is_kernel; address = frame },
      set_bit frames frame 1,
    )

-- `map_page`: whether it succeeded, with the page and the frames.
unfoldable pub map_page : Page → Bool → Bool → Bitset → Option (Bool × Page × Bitset)
map_page page is_kernel is_writable frames =
    let frame = first_false_bit frames in
    if frame == all_ones
    then some (false, page, frames)
    else elim (map_page_to_frame page frame is_kernel is_writable frames) [
      | none ↦ none
      | some (p, fs) ↦ some (true, p, fs)
    ]

unfoldable pub free_page : Page → Bool → Bitset → Page × Bitset
free_page page set_frame_free frames = (
  record page { present = false },
  if set_frame_free && is_true page.address then set_bit frames page.address 0 else frames,
)

-- The directory with a new, empty table; `frame` is the frame of the table.
abbrev pub with_table : ℕ → Directory → ℕ → Bool → Bool → Directory
with_table frame dir t is_kernel is_writable =
    let empty : Page = record { present = false; rw = false; user = false; address = 0 } in
    record {
      entries =
          put dir.entries t
            (record { present = true; rw = is_writable; user = not is_kernel; address = frame });
      made = put dir.made t true;
      tables = put dir.tables t (λ i. empty);
    }

-- The directory with the rights that a page needs on its table.
abbrev pub with_rights : Directory → ℕ → Bool → Bool → Directory
with_rights dir t is_kernel is_writable =
    let e : TableEntry = dir.entries t in
    record dir {
      entries =
          put dir.entries t (record e { user = not is_kernel || e.user; rw = is_writable || e.rw });
    }

unfoldable pub make_page_table : ℕ → Directory → ℕ → Bool → Bool → Option Directory
make_page_table frame dir t is_kernel is_writable =
    if dir.made t then none else some (with_table frame dir t is_kernel is_writable)

-- `get_page`: the directory in which the page can be read and written.
unfoldable pub get_page : ℕ → Directory → ℕ → Bool → Bool → Option Directory
get_page frame dir address is_kernel is_writable =
    let t = table_index address in
    if not (dir.entries t).present
    then make_page_table frame dir t is_kernel is_writable
    else some (with_rights dir t is_kernel is_writable)

-- The rest of `request_virtual_space` in the directory that `get_page` leaves.
unfoldable pub map_fresh : ℕ → Bool → Bool → Bitset → Directory → Option (Bool × Directory × Bitset)
map_fresh address is_kernel is_writable frames dir =
    if (page_at dir address).present
    then some (false, dir, frames)
    else elim (map_page (page_at dir address) is_kernel is_writable frames) [
      | none ↦ none
      | some (ok, p, fs) ↦ some (ok, set_page dir address p, fs)
    ]

unfoldable pub request_virtual_space :
    ℕ → Directory → ℕ → Bool → Bool → Bitset → Option (Bool × Directory × Bitset)
request_virtual_space frame dir address is_kernel is_writable frames =
    elim (get_page frame dir address is_kernel is_writable) [
      | none ↦ none
      | some d ↦ map_fresh address is_kernel is_writable frames d
    ]

-- The loop of `find_unmapped_page`, with the rounds that are left; 0 where every page is mapped.
unfoldable pub unmapped_from : ℕ → Directory → ℕ → ℕ
unmapped_from zero dir page = 0
unmapped_from (suc n) dir page = elim (is_true (get_physical_address dir (0x1000 * page))) [
  | true ↦ unmapped_from n dir (page + 1)
  | false ↦ page
]

unfoldable pub find_unmapped_page : Directory → ℕ
find_unmapped_page dir = unmapped_from (1024 * 1024 - 1) dir 1

-- The rest of `request_physical_space` in the directory that `get_page` leaves.
unfoldable pub map_physical :
    ℕ → ℕ → Bool → Bool → Bitset → Directory → Option (ℕ × Directory × Bitset)
map_physical address physical is_kernel is_writable frames dir =
    elim (map_page_to_frame (page_at dir address) (physical / 0x1000) is_kernel is_writable
      frames) [ none ↦ none | some (p, fs) ↦ some (address, set_page dir address p, fs) ]

unfoldable pub request_physical_space :
    ℕ → Directory → ℕ → Bool → Bool → Bitset → Option (ℕ × Directory × Bitset)
request_physical_space frame dir physical is_kernel is_writable frames =
    let index = find_unmapped_page dir in
    let address = (index * 0x1000 + physical % 0x1000) % u32_mod in
    if not (is_true index)
    then some (0, dir, frames)
    else elim (get_page frame dir address is_kernel is_writable) [
      | none ↦ none
      | some d ↦ map_physical address physical is_kernel is_writable frames d
    ]

unfoldable pub free_virtual_space : ℕ → Directory → ℕ → Bool → Bitset → Option (Directory × Bitset)
free_virtual_space frame dir address free_frame frames =
    elim (get_page frame dir address true false) [
      | none ↦ none
      | some d ↦
          let r = free_page (page_at d address) free_frame frames in
          some (set_page d address r.0, r.1)
    ]
