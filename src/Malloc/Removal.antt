-- ===== src/Malloc/Removal.antt =====
-- `remove` of src/malloc.c takes a block out of the free list, wherever it stands.
use mariobr_os.Base.{
  ℕ, ◌+◌, ◌^◌, ◌<◌, ◌≡◌, ◌∙◌, ◌⊎◌, inl, inr, refl, sym, subst, false, List, [], ◌∷◌, ◌++◌, ◌==◌,
  if◌then◌else◌, arith, ne→==, eq→==, Bool-cases,
}
use mariobr_os.Memory.{Bytes}
use mariobr_os.Memory.Laws.{load32-store32_self, load32-store32-Apart}
use mariobr_os.Malloc.{Heap, get_prev, get_next, set_next, link_back, link_forward, remove}
use mariobr_os.Malloc.FreeList.{
  Far, FarFrom, AreBlocks, first, last, Linked, IsFreeList, get_prev-Far, get_next-Far, Linked-far,
  Linked-link_back, link_back-far, first-lt, Far-sym,
}

abbrev forward : ℕ → ℕ → Bytes → Bytes
forward a b m = if a == 0 then m else set_next a b m

-- What `remove` does to the memory, with the block before and the one behind.
abbrev unlink : ℕ → ℕ → Bytes → Bytes
unlink a b m = link_back b a (forward a b m)

neighbours :
    (m : Bytes) (p c : ℕ) (xs ys : List ℕ)
    → Linked m p (xs ++ c ∷ ys)
    → (get_prev m c ≡ last p xs) × (get_next m c ≡ first ys)
neighbours m p c [] ys l = (l.0, l.1)
neighbours m p c (x ∷ xs) ys l = neighbours m x c xs ys l.2

FarFrom-without : (a c : ℕ) (xs ys : List ℕ) → FarFrom a (xs ++ c ∷ ys) → FarFrom a (xs ++ ys)
FarFrom-without a c [] ys f = f.1
FarFrom-without a c (x ∷ xs) ys f = (f.0, FarFrom-without a c xs ys f.1)

AreBlocks-without : (c : ℕ) (xs ys : List ℕ) → AreBlocks (xs ++ c ∷ ys) → AreBlocks (xs ++ ys)
AreBlocks-without c [] ys b = b.3
AreBlocks-without c (x ∷ xs) ys b =
    (b.0, b.1, FarFrom-without x c xs ys b.2, AreBlocks-without c xs ys b.3)

AreBlocks-behind : (c : ℕ) (xs ys : List ℕ) → AreBlocks (xs ++ c ∷ ys) → AreBlocks ys
AreBlocks-behind c [] ys b = b.3
AreBlocks-behind c (x ∷ xs) ys b = AreBlocks-behind c xs ys b.3

FarFrom-behind : (a c : ℕ) (xs ys : List ℕ) → FarFrom a (xs ++ c ∷ ys) → FarFrom a ys
FarFrom-behind a c [] ys f = f.1
FarFrom-behind a c (x ∷ xs) ys f = FarFrom-behind a c xs ys f.1

-- The last block before `c`, which is the block `x` itself or far from it.
last-Far : (x y c : ℕ) (xs ys : List ℕ) → FarFrom x (y ∷ (xs ++ c ∷ ys)) → Far (last y xs) x
last-Far x y c [] ys f = Far-sym x y f.0
last-Far x y c (z ∷ xs) ys f = last-Far x z c xs ys f.1

last-pos : (y c : ℕ) (xs ys : List ℕ) → 0 < y → AreBlocks (xs ++ c ∷ ys) → 0 < last y xs
last-pos y c [] ys h b = h
last-pos y c (x ∷ xs) ys h b = last-pos x c xs ys b.0 b.3

last-lt : (y c : ℕ) (xs ys : List ℕ) → y < 2 ^ 32 → AreBlocks (xs ++ c ∷ ys) → last y xs < 2 ^ 32
last-lt y c [] ys h b = h
last-lt y c (x ∷ xs) ys h b = last-lt x c xs ys b.1 b.3

forward-block : (a b : ℕ) (m : Bytes) → 0 < a → forward a b m ≡ set_next a b m
forward-block a b m h = rw (ne→== a 0 (omega arith))

-- The first link changes the pointer to the next block, of the block before only.
head_links :
    (m : Bytes) (x c : ℕ) (xs ys : List ℕ)
    → AreBlocks (x ∷ (xs ++ c ∷ ys))
    → get_next m x ≡ first (xs ++ c ∷ ys)
    → let m1 : Bytes = forward (last x xs) (first ys) m in
      (get_prev m1 x ≡ get_prev m x) × (get_next m1 x ≡ first (xs ++ ys))
head_links m x c [] ys b l = rw (forward-block x (first ys) m b.0) (
  load32-store32-Apart m (x + 8) (first ys) (x + 4) (inr (omega arith)),
  load32-store32_self m (x + 8) (first ys) (first-lt ys b.3.3),
)
head_links m x c (y ∷ xs) ys b l =
    let a : ℕ = last y xs in
    let far : Far a x = last-Far x y c xs ys b.2 in
    rw (forward-block a (first ys) m (last-pos y c xs ys b.3.0 b.3.3)) (
      get_prev-Far m a (a + 8) (first ys) x far (omega arith) (omega arith),
      get_next-Far m a (a + 8) (first ys) x far (omega arith) (omega arith) ∙ l,
    )

-- The blocks behind the one that is taken out keep their links.
forward-Linked :
    (m : Bytes) (p c : ℕ) (ys : List ℕ)
    → (p ≡ 0) ⊎ ((0 < p) × FarFrom p (c ∷ ys))
    → Linked m c ys
    → Linked (forward p (first ys) m) c ys
forward-Linked m p c ys (inl e) l = rw (eq→== p 0 e) l
forward-Linked m p c ys (inr (pos, far)) l =
    rw (forward-block p (first ys) m pos)
      (Linked-far m p (p + 8) (first ys) c ys far.1 (omega arith) (omega arith) l)

unlink-Linked :
    (m : Bytes) (p c : ℕ) (xs ys : List ℕ)
    → AreBlocks (xs ++ c ∷ ys)
    → p < 2 ^ 32
    → (p ≡ 0) ⊎ ((0 < p) × FarFrom p (xs ++ c ∷ ys))
    → Linked m p (xs ++ c ∷ ys)
    → Linked (unlink (last p xs) (first ys) m) p (xs ++ ys)
unlink-Linked m p c [] ys b h f l =
    Linked-link_back (forward p (first ys) m) c p ys b.3 h (forward-Linked m p c ys f l.2)
unlink-Linked m p c (x ∷ xs) ys b h f l =
    let m1 : Bytes = forward (last x xs) (first ys) m in
    let kept =
      link_back-far m1 x (last x xs) ys (AreBlocks-behind c xs ys b.3)
        (FarFrom-behind x c xs ys b.2) in
    let head = head_links m x c xs ys b l.1 in
    (kept.0 ∙ head.0 ∙ l.0, kept.1 ∙ head.1, unlink-Linked m x c xs ys b.3 b.1 (inr (b.0, b.2)) l.2)

-- The heap after `remove`, with the block before and the one behind.
abbrev removed : ℕ → ℕ → Heap → Heap
removed a b h = let h1 : Heap = link_forward a b h in record h1 { mem = link_back b a h1.mem }

removed-mem : (a b : ℕ) (h : Heap) → (removed a b h).mem ≡ unlink a b h.mem
removed-mem a b h = elim (Bool-cases (a == 0)) [ inl e ↦ rw e refl | inr e ↦ rw e refl ]

removed-IsFreeList :
    (c : ℕ) (h : Heap) (xs ys : List ℕ)
    → IsFreeList h (xs ++ c ∷ ys)
    → IsFreeList (removed (last 0 xs) (first ys) h) (xs ++ ys)
removed-IsFreeList c h [] ys f = record {
  starts = refl;
  blocks = AreBlocks-without c [] ys f.blocks;
  linked = unlink-Linked h.mem 0 c [] ys f.blocks (omega arith) (inl refl) f.linked;
}
removed-IsFreeList c h (x ∷ xs) ys f =
    let a : ℕ = last x xs in
    let pos : (a == 0) ≡ false =
      ne→== a 0 (omega (arith, last-pos x c xs ys f.blocks.0 f.blocks.3)) in
    let l = unlink-Linked h.mem 0 c (x ∷ xs) ys f.blocks (omega arith) (inl refl) f.linked in
    record {
      starts = rw pos f.starts;
      blocks = AreBlocks-without c (x ∷ xs) ys f.blocks;
      linked = subst (λ m. Linked m 0 (x ∷ (xs ++ ys))) (sym (removed-mem a (first ys) h)) l;
    }

-- `remove` takes the block out of the free list and leaves the others in their order.
pub remove-IsFreeList :
    (c : ℕ) (h : Heap) (xs ys : List ℕ)
    → IsFreeList h (xs ++ c ∷ ys)
    → IsFreeList (remove c h) (xs ++ ys)
unfolding remove
remove-IsFreeList c h xs ys f =
    let (before, behind) = neighbours h.mem 0 c xs ys f.linked in
    rw (before, behind) (removed-IsFreeList c h xs ys f)
