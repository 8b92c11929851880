-- ===== src/Queue.antt =====
-- src/queue.c: a queue is a ring of cells linked in both directions, from the oldest one on. The
-- heap is a function of the address; 0 is the null pointer. An allocation is an argument, the
-- address of the new cell, and what is freed is returned.
pub mod Ring
pub mod Refines
mod Tests
use mariobr_os.Base.{put, ℕ, Bool, Option, none, some, ◌==◌, if◌then◌else◌}

-- `struct queue`
pub record Cell : Type 0 where
  pub value : ℕ
  pub next : ℕ
  pub prev : ℕ

abbrev pub Heap : Type 0
Heap = ℕ → Cell

abbrev pub set_next : Heap → ℕ → ℕ → Heap
set_next h a n = put h a (record (h a) { next = n })

abbrev pub set_prev : Heap → ℕ → ℕ → Heap
set_prev h a p = put h a (record (h a) { prev = p })

unfoldable pub is_empty_ring : ℕ → Bool
is_empty_ring q = q == 0

-- `enqueue`: the heap and `*q` after it; `elt` is the new cell.
unfoldable pub ring_enqueue : ℕ → Heap → ℕ → ℕ → Heap × ℕ
ring_enqueue elt h q v =
    if q == 0
    then (put h elt (record { value = v; next = elt; prev = elt }), elt)
    else (let h1 : Heap = put h elt (record { value = v; next = q; prev = (h q).prev }) in
        let h2 : Heap = set_next h1 (h1 q).prev elt in (set_prev h2 q elt, q))

-- `dequeue`: the value, the heap and `*q` after it; the cell at `q` is freed.
unfoldable pub ring_dequeue : Heap → ℕ → ℕ × Heap × ℕ
ring_dequeue h q =
    let next : ℕ = (h q).next in
    let prev : ℕ = (h q).prev in
    let h1 : Heap = set_prev h next prev in
    let h2 : Heap = set_next h1 prev next in ((h q).value, h2, if next == q then 0 else next)
