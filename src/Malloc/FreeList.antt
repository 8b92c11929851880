-- ===== src/Malloc/FreeList.antt =====
-- The free list of src/malloc.c, linked in both directions through the blocks, against the list of
-- its blocks.
use mariobr_os.Base.{
  ℕ, ◌+◌, ◌^◌, ◌≤◌, ◌<◌, ◌≡◌, ◌∙◌, ◌⊎◌, inl, inr, refl, sym, List, [], ◌∷◌, arith, ne→==, subst,
}
use mariobr_os.Memory.{Bytes, store32}
use mariobr_os.Memory.Laws.{load32-store32_self, load32-store32-Apart}
use mariobr_os.Malloc.{Heap, get_prev, get_next, set_prev, set_next, link_back, insert_after}

-- Two blocks of at least 16 bytes do not meet.
abbrev pub Far : ℕ → ℕ → Type 0
Far a b = (a + 16 ≤ b) ⊎ (b + 16 ≤ a)

abbrev pub FarFrom : ℕ → List ℕ → Type 0
FarFrom a [] = Unit {0}
FarFrom a (x ∷ xs) = Far a x × FarFrom a xs

-- Blocks that are no null pointers and do not meet.
abbrev pub AreBlocks : List ℕ → Type 0
AreBlocks [] = Unit {0}
AreBlocks (x ∷ xs) = (0 < x) × (x < 2 ^ 32) × FarFrom x xs × AreBlocks xs

abbrev pub first : List ℕ → ℕ
first [] = 0
first (x ∷ xs) = x

abbrev pub last : ℕ → List ℕ → ℕ
last p [] = p
last p (x ∷ xs) = last x xs

-- The links of the blocks, with the block `p` before them and none behind.
abbrev pub Linked : Bytes → ℕ → List ℕ → Type 0
Linked m p [] = Unit {0}
Linked m p (x ∷ xs) = (get_prev m x ≡ p) × (get_next m x ≡ first xs) × Linked m x xs

-- The free list of a heap is the list of these blocks.
pub record IsFreeList (h : Heap) (xs : List ℕ) : Type 0 where
  pub starts : h.first_free_block ≡ first xs
  pub blocks : AreBlocks xs
  pub linked : Linked h.mem 0 xs

pub get_prev-Far :
    (m : Bytes) (c a v x : ℕ)
    → Far c x
    → c ≤ a
    → a + 4 ≤ c + 16
    → get_prev (store32 m a v) x ≡ get_prev m x
get_prev-Far m c a v x (inl f) lo hi = load32-store32-Apart m a v (x + 4) (inl (omega arith))
get_prev-Far m c a v x (inr f) lo hi = load32-store32-Apart m a v (x + 4) (inr (omega arith))

pub get_next-Far :
    (m : Bytes) (c a v x : ℕ)
    → Far c x
    → c ≤ a
    → a + 4 ≤ c + 16
    → get_next (store32 m a v) x ≡ get_next m x
get_next-Far m c a v x (inl f) lo hi = load32-store32-Apart m a v (x + 8) (inl (omega arith))
get_next-Far m c a v x (inr f) lo hi = load32-store32-Apart m a v (x + 8) (inr (omega arith))

-- A write to the header of another block leaves the links.
pub Linked-far :
    (m : Bytes) (c a v p : ℕ) (xs : List ℕ)
    → FarFrom c xs
    → c ≤ a
    → a + 4 ≤ c + 16
    → Linked m p xs
    → Linked (store32 m a v) p xs
Linked-far m c a v p [] f lo hi l = tt
Linked-far m c a v p (x ∷ xs) f lo hi l = (
  get_prev-Far m c a v x f.0 lo hi ∙ l.0,
  get_next-Far m c a v x f.0 lo hi ∙ l.1,
  Linked-far m c a v x xs f.1 lo hi l.2,
)

link_back-block : (x c : ℕ) (m : Bytes) → 0 < x → link_back x c m ≡ set_prev x c m
link_back-block x c m h = rw (ne→== x 0 (omega arith))

pub Far-sym : (a b : ℕ) → Far a b → Far b a
Far-sym a b (inl h) = inr h
Far-sym a b (inr h) = inl h

-- The first block gets another one before it.
pub Linked-link_back :
    (m : Bytes) (p c : ℕ) (xs : List ℕ)
    → AreBlocks xs
    → c < 2 ^ 32
    → Linked m p xs
    → Linked (link_back (first xs) c m) c xs
Linked-link_back m p c [] b h l = tt
Linked-link_back m p c (x ∷ xs) b h l =
    subst (λ n. Linked n c (x ∷ xs)) (sym (link_back-block x c m b.0))
      (
        load32-store32_self m (x + 4) c h,
        load32-store32-Apart m (x + 4) c (x + 8) (inl (omega arith)) ∙ l.1,
        Linked-far m x (x + 4) c x xs b.2 (omega arith) (omega arith) l.2,
      )

-- The links of a block that is far from the list stay as they are.
pub link_back-far :
    (m : Bytes) (c v : ℕ) (xs : List ℕ)
    → AreBlocks xs
    → FarFrom c xs
    → (get_prev (link_back (first xs) v m) c ≡ get_prev m c)
      × (get_next (link_back (first xs) v m) c ≡ get_next m c)
link_back-far m c v [] b f = (refl, refl)
link_back-far m c v (x ∷ xs) b f = rw (link_back-block x v m b.0) (
  get_prev-Far m x (x + 4) v c (Far-sym c x f.0) (omega arith) (omega arith),
  get_next-Far m x (x + 4) v c (Far-sym c x f.0) (omega arith) (omega arith),
)

pub first-lt : (xs : List ℕ) → AreBlocks xs → first xs < 2 ^ 32
first-lt [] b = omega arith
first-lt (x ∷ xs) b = b.1

-- A block that is inserted at the start of the free list becomes its first one, if it does not meet
-- the free blocks.
pub insert_after-IsFreeList :
    (c : ℕ) (h : Heap) (xs : List ℕ)
    → 0 < c
    → c < 2 ^ 32
    → FarFrom c xs
    → IsFreeList h xs
    → IsFreeList (insert_after c 0 h) (c ∷ xs)
unfolding insert_after
insert_after-IsFreeList c h xs pos small far f = record {
  starts = refl;
  blocks = (pos, small, far, f.blocks);
  linked =
      subst (λ n. Linked (link_back n c (set_prev c 0 (set_next c n h.mem))) 0 (c ∷ xs))
        (sym f.starts)
        (
          (link_back-far m2 c c xs f.blocks far).0 ∙ load32-store32_self m1 (c + 4) 0 (omega arith),
          (link_back-far m2 c c xs f.blocks far).1
              ∙ load32-store32-Apart m1 (c + 4) 0 (c + 8) (inl (omega arith))
              ∙ load32-store32_self h.mem (c + 8) (first xs) (first-lt xs f.blocks),
          Linked-link_back m2 0 c xs f.blocks small (
              Linked-far m1 c (c + 4) 0 0 xs far (omega arith) (omega arith) (
                Linked-far h.mem c (c + 8) (first xs) 0 xs far (omega arith) (omega arith)
                  f.linked)),
        );
}
  where
    m1 : Bytes
    m1 = set_next c (first xs) h.mem

    m2 : Bytes
    m2 = set_prev c 0 m1
