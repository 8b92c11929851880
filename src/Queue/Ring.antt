-- ===== src/Queue/Ring.antt =====
-- Segments of linked cells, and what the writes of src/queue.c do to them.
use mariobr_os.Base.{
  put, ℕ, ◌≡◌, ◌≢◌, refl, sym, true, false, List, [], ◌∷◌, ◌++◌, ◌==◌, eq→==, ne→==,
}
use mariobr_os.Queue.{Cell, Heap, set_next, set_prev}

abbrev pub NotIn : ℕ → List ℕ → Type 0
NotIn x [] = Unit {0}
NotIn x (y ∷ ys) = (x ≢ y) × NotIn x ys

abbrev pub Distinct : List ℕ → Type 0
Distinct [] = Unit {0}
Distinct (x ∷ xs) = NotIn x xs × Distinct xs

-- The first address of a list, or what comes behind it; and the last one.
abbrev pub first : List ℕ → ℕ → ℕ
first [] n = n
first (a ∷ xs) n = a

abbrev pub last : ℕ → List ℕ → ℕ
last a [] = a
last a (b ∷ bs) = last b bs

-- The cells at the given addresses hold the given values and are linked in both directions,
-- between the cell `p` before them and the cell `n` behind them.
abbrev pub Seg : Heap → ℕ → List ℕ → List ℕ → ℕ → Type 0
Seg h p [] [] n = Unit {0}
Seg h p [] (v ∷ vs) n = ⊥
Seg h p (a ∷ xs) [] n = ⊥
Seg h p (a ∷ xs) (v ∷ vs) n =
    ((h a).value ≡ v) × ((h a).prev ≡ p) × ((h a).next ≡ first xs n) × Seg h a xs vs n

-- A write elsewhere changes nothing.
pub Seg-put :
    (h : Heap) (p : ℕ) (xs vs : List ℕ) (n x : ℕ) (c : Cell)
    → NotIn x xs
    → Seg h p xs vs n
    → Seg (put h x c) p xs vs n
Seg-put h p [] [] n x c o s = tt
Seg-put h p [] (v ∷ vs) n x c o s = s
Seg-put h p (a ∷ xs) [] n x c o s = s
Seg-put h p (a ∷ xs) (v ∷ vs) n x c o s =
    let e : (x == a) ≡ false = ne→== x a o.0 in
    (rw e s.0, rw e s.1, rw e s.2, Seg-put h a xs vs n x c o.1 s.3)

-- The first cell gets another predecessor.
pub Seg-set_prev :
    (h : Heap) (p p' a : ℕ) (xs vs : List ℕ) (n : ℕ)
    → NotIn a xs
    → Seg h p (a ∷ xs) vs n
    → Seg (set_prev h a p') p' (a ∷ xs) vs n
Seg-set_prev h p p' a xs [] n o s = s
Seg-set_prev h p p' a xs (v ∷ vs) n o s =
    let e : (a == a) ≡ true = eq→== a a refl in
    (rw e s.0, rw e refl, rw e s.2, Seg-put h a xs vs n a _ o s.3)

NotIn-last : (x a : ℕ) (xs : List ℕ) → x ≢ a → NotIn x xs → x ≢ last a xs
NotIn-last x a [] e o = e
NotIn-last x a (b ∷ bs) e o = NotIn-last x b bs o.0 o.1

-- The last cell gets another successor.
pub Seg-set_next :
    (h : Heap) (p a : ℕ) (xs vs : List ℕ) (n n' : ℕ)
    → Distinct (a ∷ xs)
    → Seg h p (a ∷ xs) vs n
    → Seg (set_next h (last a xs) n') p (a ∷ xs) vs n'
Seg-set_next h p a xs [] n n' d s = s
Seg-set_next h p a [] (v ∷ []) n n' d s =
    let e : (a == a) ≡ true = eq→== a a refl in (rw e s.0, rw e s.1, rw e refl, tt)
Seg-set_next h p a [] (v ∷ w ∷ vs) n n' d s = absurd s.3
Seg-set_next h p a (b ∷ bs) (v ∷ vs) n n' d s =
    let e : (last b bs == a) ≡ false =
      ne→== (last b bs) a (λ q. NotIn-last a b bs d.0.0 d.0.1 (sym q)) in
    (rw e s.0, rw e s.1, rw e s.2, Seg-set_next h a b bs vs n n' d.1 s.3)

-- Two segments in a row.
pub Seg-snoc :
    (h : Heap) (p a : ℕ) (xs vs : List ℕ) (e v n : ℕ)
    → Seg h p (a ∷ xs) vs e
    → Seg h (last a xs) (e ∷ []) (v ∷ []) n
    → Seg h p (a ∷ (xs ++ e ∷ [])) (vs ++ v ∷ []) n
Seg-snoc h p a xs [] e v n s t = absurd s
Seg-snoc h p a [] (w ∷ []) e v n s t = (s.0, s.1, s.2, t)
Seg-snoc h p a [] (w ∷ x ∷ vs) e v n s t = absurd s.3
Seg-snoc h p a (b ∷ bs) (w ∷ vs) e v n s t = (s.0, s.1, s.2, Seg-snoc h a b bs vs e v n s.3 t)
