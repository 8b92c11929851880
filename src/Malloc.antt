-- ===== src/Malloc.antt =====
-- src/malloc.c: the heap of a directory, in the bytes of its memory. Every block has its size and
-- whether it is used in a header and again at its end; the free blocks are a doubly linked list.
-- 0 is the null pointer. The change to the kernel's directory while pages are requested leaves the
-- heap's own variables as they were, and is left out.
pub mod Extension
pub mod Allocation
pub mod Headers
pub mod Pointers
pub mod FreeList
pub mod Removal
pub mod Search
mod Tests
use mariobr_os.Base.{
  ℕ, zero, suc, ◌+◌, ◌-◌, ◌*◌, ◌/◌, ◌%◌, ◌^◌, Bool, true, false, not, ◌&&◌, ◌||◌, Option, none,
  some, ◌==◌, if◌then◌else◌, ltb, leb, is_true, to_int, u32_mod, add32, sub32,
}
use mariobr_os.Memory.{Bytes, load32, store32}

-- The memory, the two globals of a heap, and `START_OF_HEAP`.
pub record Heap : Type 0 where
  pub mem : Bytes
  pub first_free_block : ℕ
  pub unallocated_mem : ℕ
  pub start_of_heap : ℕ

-- The fields of a header: the size in the low 31 bits, in units of two bytes, and the top bit.
unfoldable pub get_size : Bytes → ℕ → ℕ
get_size m b = 2 * (load32 m b % 2 ^ 31) % u32_mod

unfoldable pub get_used : Bytes → ℕ → Bool
get_used m b = is_true (load32 m b / 2 ^ 31)

abbrev pub get_prev : Bytes → ℕ → ℕ
get_prev m b = load32 m (b + 4)

abbrev pub get_next : Bytes → ℕ → ℕ
get_next m b = load32 m (b + 8)

abbrev pub set_prev : ℕ → ℕ → Bytes → Bytes
set_prev b v m = store32 m (b + 4) v

abbrev pub set_next : ℕ → ℕ → Bytes → Bytes
set_next b v m = store32 m (b + 8) v

unfoldable pub get_first_header : Bytes → ℕ → ℕ
get_first_header m e = sub32 (add32 e 4) (get_size m e)

unfoldable pub get_end_header : Bytes → ℕ → ℕ
get_end_header m b = sub32 (add32 b (get_size m b)) 4

unfoldable pub get_prev_block : Heap → ℕ → ℕ
get_prev_block h b =
    if ltb (sub32 b 4) h.start_of_heap then 0 else sub32 b (get_size h.mem (sub32 b 4))

unfoldable pub get_next_block : Heap → ℕ → ℕ
get_next_block h b =
    let next = add32 b (get_size h.mem b) in if leb h.unallocated_mem next then 0 else next

unfoldable pub set_size : ℕ → ℕ → Bytes → Bytes
set_size b size m = store32 m b (load32 m b / 2 ^ 31 * 2 ^ 31 + size / 2 % 2 ^ 31)

unfoldable pub set_used : ℕ → Bool → Bytes → Bytes
set_used b used m = store32 m b (to_int used * 2 ^ 31 + load32 m b % 2 ^ 31)

unfoldable pub set_block : ℕ → ℕ → Bool → Bytes → Bytes
set_block b size used m =
    let m1 = set_used b used (set_size b size m) in store32 m1 (get_end_header m1 b) (load32 m1 b)

-- `a` becomes the block before `b`, unless `b` is the null pointer.
abbrev pub link_back : ℕ → ℕ → Bytes → Bytes
link_back b a m = if b == 0 then m else set_prev b a m

unfoldable pub insert_after : ℕ → ℕ → Heap → Heap
insert_after c a h =
    if a == 0
    then record h {
      mem = link_back h.first_free_block c (set_prev c 0 (set_next c h.first_free_block h.mem));
      first_free_block = c;
    }
    else let b = get_next h.mem a in
      record h { mem = link_back b c (set_next c b (set_prev c a (set_next a c h.mem))) }

-- `a->next = b`, or the first free block where `a` is the null pointer.
abbrev pub link_forward : ℕ → ℕ → Heap → Heap
link_forward a b h =
    if a == 0 then record h { first_free_block = b } else record h { mem = set_next a b h.mem }

unfoldable pub remove : ℕ → Heap → Heap
remove c h =
    let a = get_prev h.mem c in
    let b = get_next h.mem c in
    let h1 = link_forward a b h in record h1 { mem = link_back b a h1.mem }

unfoldable pub merge_with_next : ℕ → Heap → Heap
merge_with_next a h =
    let b = get_next_block h a in
    if (b == 0) || get_used h.mem b
    then h
    else let h1 = remove b h in
      let size = add32 (get_size h1.mem a) (get_size h1.mem b) in
      let m1 = set_size a size h1.mem in record h1 { mem = set_size (get_end_header m1 a) size m1 }

-- The resulting block and the heap.
unfoldable pub merge : ℕ → Heap → ℕ × Heap
merge b h =
    let h1 = merge_with_next b h in
    let prev = get_prev_block h1 b in
    if (prev == 0) || get_used h1.mem prev then (b, h1) else (prev, merge_with_next prev h1)

-- The two globals of a new heap whose first page is there.
unfoldable pub malloc_new_state : ℕ → Bytes → Heap
malloc_new_state start m = record {
  mem = set_next start 0 (set_prev start 0 (set_block start 0x1000 false m));
  first_free_block = start;
  unallocated_mem = add32 start 0x1000;
  start_of_heap = start;
}

-- `while (*maybe_header == 0) maybe_header--;` below an address: the address behind the last byte
-- that is not 0.
unfoldable pub find_header : Bytes → ℕ → ℕ
find_header m zero = 0
find_header m (suc p) = elim (m p == 0) [ true ↦ find_header m p | false ↦ suc p ]

unfoldable pub mem_free : ℕ → Heap → Heap
mem_free ptr h =
    let b = sub32 (find_header h.mem ptr) 4 in
    (merge b (insert_after b 0 (record h { mem = set_used b false h.mem }))).1
