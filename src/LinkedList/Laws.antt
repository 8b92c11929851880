-- ===== src/LinkedList/Laws.antt =====
-- What the functions of src/list.c promise, over the list of the values.
use mathlib.Core.List
use mariobr_os.Base.{
  ℕ, ◌+◌, ◌-◌, ◌≤◌, ◌≡◌, ◌≢◌, refl, ap, ◌∙◌, some, List, [], ◌∷◌, ◌++◌, arith, ◌==◌, if◌then◌else◌,
  eq→==,
}
use mariobr_os.Math.{max_u32}
use mariobr_os.LinkedList.{unlink, push, remove_elt, max_from, extract_max, reverse_loop, reverse}

-- How often a value stands in a list.
abbrev pub count : ℕ → List ℕ → ℕ
count x [] = 0
count x (y ∷ l) = (if y == x then 1 else 0) + count x l

unlink-remove_elt : (l : List ℕ) (x : ℕ) → unlink l x ≡ remove_elt l x
unfolding remove_elt
unlink-remove_elt [] x = refl
unlink-remove_elt (y ∷ l) x = refl

-- `remove_elt` takes one occurrence of the value out, if there is one, and keeps every other
-- value as often as it was.
pub count-remove_elt :
    (l : List ℕ) (x y : ℕ)
    → count y (remove_elt l x) ≡ (if x == y then count y l - 1 else count y l)
unfolding remove_elt
count-remove_elt [] x y = ground arith
count-remove_elt (z ∷ l) x y =
    ground (arith, count-remove_elt l x y, ap (count y) (unlink-remove_elt l x))

-- Values that stand before the first occurrence keep their place, and so do those behind it.
pub remove_elt-first : (a b : List ℕ) (x : ℕ) → count x a ≡ 0 → remove_elt (a ++ x ∷ b) x ≡ a ++ b
unfolding remove_elt
remove_elt-first [] b x h = rw (eq→== x x refl)
remove_elt-first (y ∷ a) b x h =
    ground (arith, remove_elt-first a b x, unlink-remove_elt (a ++ x ∷ b) x)

abbrev pub AllLe : List ℕ → ℕ → Type 0
AllLe [] m = Unit {0}
AllLe (x ∷ l) m = (x ≤ m) × AllLe l m

max_step :
    (m x r c : ℕ)
    → max_u32 m x ≤ r
    → 0 ≢ (if max_u32 m x == r then 1 else 0) + c
    → (m ≤ r) × (x ≤ r) × (0 ≢ (if m == r then 1 else 0) + ((if x == r then 1 else 0) + c))
unfolding max_u32
max_step m x r c h k = ground arith

max_from-bounds :
    (m : ℕ) (l : List ℕ)
    → (m ≤ max_from m l) × AllLe l (max_from m l) × (0 ≢ count (max_from m l) (m ∷ l))
unfolding max_from
max_from-bounds m [] = (omega arith, tt, ground arith)
max_from-bounds m (x ∷ l) =
    let (a, b, c) = max_from-bounds (max_u32 m x) l in
    let r = max_from (max_u32 m x) l in
    let (p, q, s) = max_step m x r (count r l) a c in (p, (q, b), s)

-- `extract_max` returns a greatest value of a list that is not empty, and takes it out once.
pub extract_max_lem :
    (x : ℕ) (l : List ℕ)
    → (m : ℕ) × (extract_max (x ∷ l) ≡ some (m, remove_elt (x ∷ l) m))
      × AllLe (x ∷ l) m
      × (0 ≢ count m (x ∷ l))
unfolding extract_max
extract_max_lem x l = let (a, b, c) = max_from-bounds x l in (max_from x l, refl, (a, b), c)

reverse_loop-append : (rev l : List ℕ) → reverse_loop rev l ≡ List.reverse l ++ rev
unfolding reverse_loop push
reverse_loop-append rev [] = refl
reverse_loop-append rev (x ∷ l) =
    reverse_loop-append (x ∷ rev) l
    ∙ rw (List.reverse-cons x l, List.append_assoc (List.reverse l) (x ∷ []) rev)

-- `reverse` of src/list.c is the reversal of the list of values.
pub reverse_lem : (l : List ℕ) → reverse l ≡ List.reverse l
unfolding reverse
reverse_lem l = reverse_loop-append [] l ∙ List.append-nil (List.reverse l)
