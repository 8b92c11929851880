-- ===== src/Malloc/Allocation.antt =====
-- src/malloc.c: a block of the heap is found, cut and handed out.
use mariobr_os.Base.{
  ℕ, zero, suc, ◌+◌, true, false, not, ◌&&◌, Option, none, some, ◌==◌, if◌then◌else◌, ltb, leb,
  add32, sub32,
}
use mariobr_os.Math.{ceil_multiple, max_u32}
use mariobr_os.Memory.{Bytes, mem_set}
use mariobr_os.Malloc.{
  Heap, get_size, get_next, set_block, get_next_block, insert_after, remove, merge_with_next,
}
use mariobr_os.Malloc.Extension.{Pages, alloc_pages, extend_heap}

-- The size of the block: room for the header, the padding, the memory and the end, or for a free
-- block, in an even number of bytes.
unfoldable pub block_size_for : ℕ → ℕ → ℕ
unfolding max_u32
block_size_for size alignment =
    ceil_multiple (max_u32 (add32 (add32 (sub32 (add32 4 alignment) 1) size) 4) (12 + 4)) 2

-- The first block of the free list that is large enough, or the null pointer; on fuel, for a list
-- that ends.
unfoldable pub first_fit : ℕ → ℕ → ℕ → Bytes → Option ℕ
first_fit zero size b m = none
first_fit (suc n) size b m = elim (not (b == 0) && ltb (get_size m b) size) [
  | true ↦ first_fit n size (get_next m b) m
  | false ↦ some b
]

-- The block is used in its first `size` bytes; the rest of `size_block` becomes a free block.
unfoldable pub split_block : ℕ → ℕ → ℕ → Heap → Heap
split_block b size size_block h =
    let h1 : Heap = record h { mem = set_block b size true h.mem } in
    let next = get_next_block h1 b in
    let h2 : Heap = record h1 { mem = set_block next (sub32 size_block size) false h1.mem } in
    merge_with_next next (insert_after next 0 h2)

-- The block is taken off the free list, and cut where a free block is left over.
unfoldable pub take_from : ℕ → ℕ → Heap → Heap
take_from b size h =
    let h1 = remove b h in
    let size_block = get_size h1.mem b in
    if leb (12 + 4) (sub32 size_block size)
    then split_block b size size_block h1
    else record h1 { mem = set_block b size_block true h1.mem }

-- The padding is zeroed; the result is the address behind it.
unfoldable pub pad_block : ℕ → ℕ → Heap → ℕ × Heap
pad_block b alignment h =
    let after_header = add32 b 4 in
    let after_padding = ceil_multiple after_header alignment in
    (
      after_padding,
      record h { mem = mem_set after_header 0 (sub32 after_padding after_header) h.mem },
    )

-- `none` is a `throw`, or a free list that does not end.
unfoldable pub mem_alloc_aligned : ℕ → ℕ → ℕ → Heap → Pages → Option (ℕ × Heap × Pages)
mem_alloc_aligned fuel size0 alignment h p =
    let size = block_size_for size0 alignment in
    elim (first_fit fuel size h.first_free_block h.mem) [
      | none ↦ none
      | some b ↦ elim (if b == 0 then alloc_pages size h p else some (b, h, p)) [
        | none ↦ none
        | some (b1, h1, p1) ↦
            let (ptr, h2) = pad_block b1 alignment (take_from b1 size h1) in
            some (if b1 == 0 then (0, h1, p1) else (ptr, h2, p1))
      ]
    ]

unfoldable pub mem_alloc : ℕ → ℕ → Heap → Pages → Option (ℕ × Heap × Pages)
mem_alloc fuel size h p = mem_alloc_aligned fuel size 1 h p

-- The heap of the kernel: `extend_heap` makes no block of the page that it adds.
unfoldable pub malloc_install : ℕ → Bytes → Pages → Option (Heap × Pages)
malloc_install start m p =
    let h : Heap = record {
      mem = m;
      first_free_block = 0;
      unallocated_mem = start;
      start_of_heap = start;
    } in
    elim (extend_heap 1 start start p) [
      | none ↦ none
      | some (ok, p1) ↦ if ok then some (h, p1) else none
    ]
