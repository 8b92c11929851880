-- ===== src/Queue/Tests.antt =====
-- Concrete runs of the ring: cells 4 and 8 with the values 7 and 9.
use mariobr_os.Base.{ℕ, ◌≡◌, refl, [], ◌∷◌, ◌++◌, arith, some}
use mariobr_os.Fifo.{enqueue, dequeue}
use mariobr_os.Queue.{Heap, ring_enqueue, ring_dequeue}
use mariobr_os.Queue.Refines.{IsRing, ring_enqueue-IsRing, ring_dequeue-IsRing}

abbrev blank : Heap
blank a = record { value = 0; next = 0; prev = 0 }

abbrev one_cell : Heap × ℕ
one_cell = ring_enqueue 4 blank 0 7

abbrev two_cells : Heap × ℕ
two_cells = ring_enqueue 8 one_cell.0 one_cell.1 9

none-IsRing : IsRing blank 0 [] []
none-IsRing = record { head = refl; used = tt; apart = tt; linked = tt }

one-IsRing : IsRing one_cell.0 one_cell.1 (4 ∷ []) (7 ∷ [])
one-IsRing = ring_enqueue-IsRing blank 0 4 7 [] [] (omega arith) tt none-IsRing

two-IsRing : IsRing two_cells.0 two_cells.1 (4 ∷ 8 ∷ []) (7 ∷ 9 ∷ [])
two-IsRing =
    ring_enqueue-IsRing one_cell.0 one_cell.1 8 9 (4 ∷ []) (7 ∷ []) (omega arith) (omega arith, tt)
      one-IsRing

ring_enqueue-IsRing_example :
    IsRing
      (ring_enqueue 8 one_cell.0 one_cell.1 9).0
      (ring_enqueue 8 one_cell.0 one_cell.1 9).1
      ((4 ∷ []) ++ 8 ∷ [])
      (enqueue (7 ∷ []) 9)
ring_enqueue-IsRing_example =
    ring_enqueue-IsRing one_cell.0 one_cell.1 8 9 (4 ∷ []) (7 ∷ []) (omega arith) (omega arith, tt)
      one-IsRing

ring_dequeue-IsRing_example :
    let t = ring_dequeue two_cells.0 two_cells.1 in
    (dequeue (7 ∷ 9 ∷ []) ≡ some (t.0, 9 ∷ [])) × IsRing t.1 t.2 (8 ∷ []) (9 ∷ [])
ring_dequeue-IsRing_example =
    ring_dequeue-IsRing two_cells.0 two_cells.1 4 (8 ∷ []) 7 (9 ∷ []) two-IsRing
