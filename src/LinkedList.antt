-- ===== src/LinkedList.antt =====
-- src/list.c: singly linked lists of 32-bit values. A `list_t` is the list of its cells' heads,
-- the null pointer being the empty one; a function that updates `*l` returns the new list. A read
-- through a null `*l` is `none`. Storage is the allocator's: cells are never out of memory here.
pub mod Laws
mod Tests
use mariobr_os.Base.{
  ℕ, Bool, true, false, Option, none, some, List, [], ◌∷◌, ◌==◌, if◌then◌else◌, is_true,
}
use mariobr_os.Math.{max_u32}

unfoldable pub empty_list : List ℕ
empty_list = []

unfoldable pub is_empty_list : List ℕ → Bool
is_empty_list [] = true
is_empty_list (x ∷ l) = false

unfoldable pub push : List ℕ → ℕ → List ℕ
push l x = x ∷ l

unfoldable pub pop : List ℕ → Option (ℕ × List ℕ)
pop [] = none
pop (x ∷ l) = some (x, l)

-- The loop of `remove_elt` at a cell whose tail is the argument: it steps while the next head is
-- not `x`, and takes the next cell out where it is.
unfoldable pub unlink : List ℕ → ℕ → List ℕ
unlink [] x = []
unlink (y ∷ l) x = if y == x then l else y ∷ unlink l x

unfoldable pub remove_elt : List ℕ → ℕ → List ℕ
unfolding unlink
remove_elt [] x = []
remove_elt (y ∷ l) x = if y == x then l else y ∷ unlink l x

unfoldable pub max_from : ℕ → List ℕ → ℕ
max_from m [] = m
max_from m (x ∷ l) = max_from (max_u32 m x) l

unfoldable pub max_list : List ℕ → Option ℕ
unfolding max_from
max_list [] = none
max_list (x ∷ l) = some (max_from x l)

unfoldable pub extract_max : List ℕ → Option (ℕ × List ℕ)
unfolding max_list remove_elt
extract_max l = elim (max_list l) [ none ↦ none | some m ↦ some (m, remove_elt l m) ]

unfoldable pub reverse_loop : List ℕ → List ℕ → List ℕ
unfolding push
reverse_loop rev [] = rev
reverse_loop rev (x ∷ l) = reverse_loop (push rev x) l

unfoldable pub reverse : List ℕ → List ℕ
unfolding reverse_loop
reverse l = reverse_loop [] l

-- The cell that the loop of `find` stops at; the predicate returns a C truth value.
unfoldable pub find_from : (ℕ → ℕ) → List ℕ → Option ℕ
find_from p [] = none
find_from p (x ∷ l) = if is_true (p x) then some x else find_from p l

-- The value that is found, or 0, with the list after it.
unfoldable pub find : List ℕ → (ℕ → ℕ) → Bool → ℕ × List ℕ
unfolding find_from remove_elt
find l p remove = elim (find_from p l) [
  | none ↦ (0, l)
  | some x ↦ (x, if remove then remove_elt l x else l)
]

-- `delete_list`: the values whose storage is freed, in order.
unfoldable pub delete_list : List ℕ → Bool → List ℕ
delete_list [] free_elts = []
delete_list (x ∷ l) free_elts =
    let rest = delete_list l free_elts in if free_elts then x ∷ rest else rest
