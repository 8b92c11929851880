-- ===== src/Malloc/Search.antt =====
-- The search of `mem_alloc_aligned` of src/malloc.c through the free list.
use mariobr_os.Base.{
  ℕ, zero, suc, ◌<◌, ◌≡◌, inl, inr, refl, true, false, some, List, [], ◌∷◌, ltb, arith, ne→==,
  Bool-cases, length,
}
use mariobr_os.Memory.{Bytes}
use mariobr_os.Malloc.{get_size}
use mariobr_os.Malloc.Allocation.{first_fit}
use mariobr_os.Malloc.FreeList.{AreBlocks, Linked, first}

-- The first block of a list that has the size, or the null pointer.
pub first_of_size : ℕ → Bytes → List ℕ → ℕ
first_of_size size m [] = 0
first_of_size size m (x ∷ xs) = elim (ltb (get_size m x) size) [
  | true ↦ first_of_size size m xs
  | false ↦ x
]

-- With more fuel than there are free blocks the search ends, and finds the first of the free blocks
-- that is large enough, or the null pointer where there is none.
pub first_fit-first :
    (n size p : ℕ) (m : Bytes) (xs : List ℕ)
    → AreBlocks xs
    → Linked m p xs
    → length xs < n
    → first_fit n size (first xs) m ≡ some (first_of_size size m xs)
unfolding first_fit first_of_size
first_fit-first zero size p m xs b l h = absurd (omega arith)
first_fit-first (suc n) size p m [] b l h = refl
first_fit-first (suc n) size p m (x ∷ xs) b l h =
    let rest = first_fit-first n size x m xs b.3 l.2 (omega arith) in
    let pos = ne→== x 0 (omega (arith, b.0)) in
    elim (Bool-cases (ltb (get_size m x) size)) [
      | inl e ↦ rw (pos, e, l.1, first_fit, first_of_size) rest
      | inr e ↦ rw (pos, e, first_fit, first_of_size) refl
    ]
