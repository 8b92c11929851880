-- ===== src/Bitset/Search.antt =====
-- The searches of src/bitset.c inside one word, and what a search of a bitset returns.
use mariobr_os.Base.{
  ℕ, zero, suc, ◌+◌, ◌-◌, ◌*◌, ◌/◌, ◌%◌, ◌^◌, ◌≤◌, ◌<◌, ◌≡◌, ◌≢◌, ap, ap₂, ◌∙◌, subst, ◌⊎◌, inl,
  inr, Option, none, some, arith, ◌==◌, ==→eq, ==→ne, eq→==, ne→==, add32, Bool-cases, ltb, ltb→lt,
  ltb→le,
}
use mariobr_os.Base.Bits.{bit, bit-lt-two, bit-ones}
use mariobr_os.Bitset.{Bitset, word, all_ones, find_zero}
use mariobr_os.Bitset.Words.{test_mask}

-- The bits of `w` from `lo` below `hi` are set.
abbrev pub AllSet : ℕ → ℕ → ℕ → Type 0
AllSet w lo hi = (i : ℕ) → lo ≤ i → i < hi → bit w i ≡ 1

AllSet-cons : (w lo hi : ℕ) → bit w lo ≡ 1 → AllSet w (lo + 1) hi → AllSet w lo hi
AllSet-cons w lo hi e rest i p q = elim (Bool-cases (lo == i)) [
  | inl here ↦ subst (λ k. bit w k ≡ 1) (==→eq _ _ here) e
  | inr later ↦ rest i (omega (arith, ==→ne _ _ later)) q
]

module _ (n w j : ℕ) (h : j < 32) where
  find_zero-set : bit w j ≡ 1 → find_zero (suc n) w j ≡ find_zero n w (j + 1)
  unfolding find_zero
  find_zero-set e = rw (test_mask w j h, eq→== (bit w j) 1 e, find_zero)

  find_zero-clear : bit w j ≢ 1 → find_zero (suc n) w j ≡ some j
  unfolding find_zero
  find_zero-clear ne = rw (test_mask w j h, ne→== (bit w j) 1 ne, find_zero)

-- What a search of `n` bits from bit `j` on returns.
abbrev pub SearchedWord : ℕ → ℕ → ℕ → Option ℕ → Type 0
SearchedWord n w j none = AllSet w j (j + n)
SearchedWord n w j (some k) = (j ≤ k) × (k < j + n) × (bit w k ≡ 0) × AllSet w j k

SearchedWord-cons :
    (n w j : ℕ) (r : Option ℕ)
    → bit w j ≡ 1
    → SearchedWord n w (j + 1) r
    → SearchedWord (suc n) w j r
SearchedWord-cons n w j none e s = AllSet-cons w j (j + suc n) e (λ i p q. s i p (omega arith))
SearchedWord-cons n w j (some k) e (a, b, c, d) =
    (omega arith, omega arith, c, AllSet-cons w j k e d)

pub find_zero-SearchedWord : (n w j : ℕ) → j + n ≤ 32 → SearchedWord n w j (find_zero n w j)
find_zero-SearchedWord zero w j h = unfold find_zero in λ i p q. absurd (omega arith)
find_zero-SearchedWord (suc n) w j h = elim (Bool-cases (bit w j == 1)) [
  | inl s ↦ rw (find_zero-set n w j (omega arith) (==→eq _ _ s)) (
      SearchedWord-cons n w j (find_zero n w (j + 1)) (==→eq _ _ s)
        (find_zero-SearchedWord n w (j + 1) (omega arith)))
  | inr u ↦ rw (find_zero-clear n w j (omega arith) (==→ne _ _ u)) (
    omega arith,
    omega arith,
    omega (arith, ==→ne _ _ u, bit-lt-two w j),
    λ i p q. absurd (omega arith),
  )
]

-- The bit of number `m`.
abbrev pub member : Bitset → ℕ → ℕ
member b m = bit (word b (m / 32)) (m % 32)

-- The numbers from `lo` below `hi` are in the set.
abbrev pub Used : Bitset → ℕ → ℕ → Type 0
Used b lo hi = (m : ℕ) → lo ≤ m → m < hi → member b m ≡ 1

Used-word :
    (b : Bitset) (i j k : ℕ) → k ≤ 32 → AllSet (word b i) j k → Used b (32 * i + j) (32 * i + k)
Used-word b i j k h s m p q =
    ap (λ t. bit (word b t) (m % 32)) {y = i} (omega arith) ∙ s (m % 32) (omega arith) (omega arith)

Used-append : (b : Bitset) (x y z : ℕ) → Used b x y → Used b y z → Used b x z
Used-append b x y z f g m p q = elim (Bool-cases (ltb m y)) [
  | inl e ↦ f m p (ltb→lt _ _ e)
  | inr e ↦ g m (ltb→le _ _ e) q
]

-- What a search from number `lo` on returns: the first number that is not in the set, or all ones
-- if there is none below the length.
abbrev pub Searched : Bitset → ℕ → ℕ → Type 0
Searched b lo r =
    ((r ≡ all_ones) × Used b lo b.length)
    ⊎ ((lo ≤ r) × (r < b.length) × (member b r ≡ 0) × Used b lo r)

pub Searched-append :
    (b : Bitset) (x y r : ℕ) → x ≤ y → Used b x y → Searched b y r → Searched b x r
Searched-append b x y r h u (inl (e, f)) = inl (e, Used-append b x y b.length u f)
Searched-append b x y r h u (inr (p, q, e, f)) = inr (omega arith, q, e, Used-append b x y r u f)

pub full_word : (b : Bitset) (i : ℕ) → word b i ≡ all_ones → Used b (32 * i) (32 * i + 32)
full_word b i e m p q =
    Used-word b i 0 32 (omega arith) (λ k _ h. rw e (bit-ones 32 k h)) m (omega arith) q

-- One word that is not full, searched from bit `j` on; `rest` is what the later words give.
pub searched_word :
    (b : Bitset) (i j : ℕ) (rest : ℕ)
    → j ≤ 32
    → 32 * i + 32 ≤ b.length
    → b.length < 2 ^ 32
    → Searched b (32 * i + 32) rest
    → (r : Option ℕ) → SearchedWord (32 - j) (word b i) j r
    → Searched b (32 * i + j) (elim r [ some k ↦ add32 (32 * i) k | none ↦ rest ])
searched_word b i j rest hj h small later none s =
    Searched-append b (32 * i + j) (32 * i + 32) rest (omega arith)
      (Used-word b i j 32 (omega arith) (λ k p q. s k p (omega arith))) later
searched_word b i j rest hj h small later (some k) (p, q, e, s) = rw no_wrap (
    inr (
      omega arith,
      omega arith,
      ap₂ (λ t u. bit (word b t) u) {x = (32 * i + k) / 32} {y = i} {u = (32 * i + k) % 32} {v = k}
            (omega arith) (omega arith)
          ∙ e,
      Used-word b i j k (omega arith) s,
    ))
  where
    no_wrap : add32 (32 * i) k ≡ 32 * i + k
    no_wrap = omega arith
