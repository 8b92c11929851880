-- ===== src/Malloc/Tests.antt =====
-- The allocator of src/malloc.c on small heaps.
use mariobr_os.Base.{ℕ, ◌+◌, ◌%◌, ◌≤◌, ◌≡◌, inr, refl, true, some, [], ◌∷◌, arith}
use mariobr_os.Memory.{Bytes}
use mariobr_os.Malloc.{
  Heap, get_size, get_used, get_next_block, get_prev_block, set_block, find_header, insert_after,
  remove,
}
use mariobr_os.Malloc.Headers.{set_block-neighbours}
use mariobr_os.Malloc.Pointers.{pad_block-find_header}
use mariobr_os.Malloc.FreeList.{IsFreeList, insert_after-IsFreeList}
use mariobr_os.Malloc.Removal.{remove-IsFreeList}
use mariobr_os.Malloc.Allocation.{first_fit, pad_block}
use mariobr_os.Malloc.Search.{first_of_size, first_fit-first}

abbrev zeros : Bytes
zeros = λ j. 0

abbrev empty_heap : Heap
empty_heap = record {
  mem = zeros;
  first_free_block = 0;
  unallocated_mem = 0x1000;
  start_of_heap = 0x100;
}

empty_heap-IsFreeList : IsFreeList empty_heap []
empty_heap-IsFreeList = record { starts = refl; blocks = tt; linked = tt }

set_block-neighbours_example :
    let h1 : Heap = record empty_heap { mem = set_block 0x200 64 true zeros } in
    (get_size h1.mem 0x200 ≡ 64)
    × (get_used h1.mem 0x200 ≡ true)
    × (get_next_block h1 0x200 ≡ 0x240)
    × (get_prev_block h1 0x240 ≡ 0x200)
set_block-neighbours_example =
    set_block-neighbours 0x200 64 true empty_heap refl (omega arith) (omega arith) (omega arith)
      (omega arith)

pad_block-find_header_example :
    let r : ℕ × Heap =
      pad_block 0x200 16 (record empty_heap { mem = set_block 0x200 64 true zeros }) in
    (r.0 % 16 ≡ 0) × (0x204 ≤ r.0) × (r.0 + 24 + 4 ≤ 0x240) × (find_header r.1.mem (r.0) ≡ 0x204)
pad_block-find_header_example =
    pad_block-find_header 0x200 64 24 16 empty_heap (omega arith) refl (omega arith) (omega arith)

one_block : IsFreeList (insert_after 0x200 0 empty_heap) (0x200 ∷ [])
one_block =
    insert_after-IsFreeList 0x200 empty_heap [] (omega arith) (omega arith) tt empty_heap-IsFreeList

abbrev two_blocks : Heap
two_blocks = insert_after 0x300 0 (insert_after 0x200 0 empty_heap)

insert_after-IsFreeList_example : IsFreeList two_blocks (0x300 ∷ 0x200 ∷ [])
insert_after-IsFreeList_example =
    insert_after-IsFreeList 0x300 (insert_after 0x200 0 empty_heap) (0x200 ∷ []) (omega arith)
      (omega arith) (inr (omega arith), tt) one_block

remove-IsFreeList_example : IsFreeList (remove 0x200 two_blocks) (0x300 ∷ [])
remove-IsFreeList_example =
    remove-IsFreeList 0x200 two_blocks (0x300 ∷ []) [] insert_after-IsFreeList_example

first_fit-first_example :
    first_fit 3 12 0x300 two_blocks.mem
    ≡ some (first_of_size 12 two_blocks.mem (0x300 ∷ 0x200 ∷ []))
first_fit-first_example =
    first_fit-first 3 12 0 two_blocks.mem (0x300 ∷ 0x200 ∷ [])
      insert_after-IsFreeList_example.blocks insert_after-IsFreeList_example.linked (omega arith)
