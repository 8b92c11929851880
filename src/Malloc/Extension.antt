-- ===== src/Malloc/Extension.antt =====
-- src/malloc.c: the heap grows by pages of the directory that it lies in.
use mariobr_os.Base.{
  ℕ, zero, suc, ◌+◌, ◌*◌, ◌%◌, Bool, true, false, not, Option, none, some, ◌==◌, if◌then◌else◌, leb,
  u32_mod, add32, sub32,
}
use mariobr_os.Math.{ceil_ratio}
use mariobr_os.Bitset.{Bitset}
use mariobr_os.Paging.{Directory, request_virtual_space, free_virtual_space}
use mariobr_os.Malloc.{Heap, get_size, get_used, get_prev_block, set_block, insert_after, merge}

-- The directory and the frames; whether paging is enabled and the directory is the kernel's; the
-- frame that a table made for an address gets; the end of the memory where paging is not enabled.
pub record Pages : Type 0 where
  pub dir : Directory
  pub frames : Bitset
  pub paging_enabled : Bool
  pub is_kernel : Bool
  pub table_frame : ℕ → ℕ
  pub upper_memory : ℕ

-- The pages that were requested are given back, from the last one on.
unfoldable pub undo_pages : ℕ → ℕ → Pages → Option Pages
undo_pages zero end p = some p
undo_pages (suc i) end p =
    let last = sub32 end 0x1000 in
    elim (free_virtual_space (p.table_frame last) p.dir last true p.frames) [
      | none ↦ none
      | some (d, fs) ↦ undo_pages i last (record p { dir = d; frames = fs })
    ]

-- The loop of `extend_heap` with the rounds that are left, `i` pages after its start.
unfoldable pub request_pages : ℕ → ℕ → ℕ → Pages → Option (Bool × Pages)
request_pages zero i end p = some (true, p)
request_pages (suc n) i end p =
    elim (request_virtual_space (p.table_frame end) p.dir end p.is_kernel (not p.is_kernel)
      p.frames) [
        | none ↦ none
        | some (ok, d, fs) ↦
            let p1 : Pages = record p { dir = d; frames = fs } in
            elim ok [
              | true ↦ request_pages n (i + 1) (add32 end 0x1000) p1
              | false ↦ elim (undo_pages i end p1) [ none ↦ none | some p2 ↦ some (false, p2) ]
            ]
      ]

unfoldable pub extend_heap : ℕ → ℕ → ℕ → Pages → Option (Bool × Pages)
extend_heap nb_pages end user_um p =
    if nb_pages == 0
    then none
    else if p.paging_enabled
    then request_pages nb_pages 0 user_um p
    else some (leb (add32 end ((0x1000 * nb_pages) % u32_mod)) p.upper_memory, p)

-- The pages for a block of the given size, less what is free at the end of the heap.
unfoldable pub pages_needed : ℕ → Heap → ℕ
pages_needed size h =
    let last = get_prev_block h h.unallocated_mem in
    if get_used h.mem last
    then ceil_ratio size 0x1000
    else ceil_ratio (sub32 size (get_size h.mem last)) 0x1000

-- The new block at the end of the heap becomes free, and is merged with a free block before it.
unfoldable pub append_pages : ℕ → Heap → ℕ × Heap
append_pages nb_pages h =
    let b = h.unallocated_mem in
    let size = (0x1000 * nb_pages) % u32_mod in
    let h1 = insert_after b 0 (record h { mem = set_block b size false h.mem }) in
    merge b (record h1 { unallocated_mem = add32 b size })

-- The new free block, or the null pointer where there is not enough space.
unfoldable pub alloc_pages : ℕ → Heap → Pages → Option (ℕ × Heap × Pages)
alloc_pages size h p =
    let nb_pages = pages_needed size h in
    elim (extend_heap nb_pages h.unallocated_mem h.unallocated_mem p) [
      | none ↦ none
      | some (ok, p1) ↦
          let (b, h1) = append_pages nb_pages h in some (if ok then (b, h1, p1) else (0, h, p1))
    ]
