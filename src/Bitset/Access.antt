-- ===== src/Bitset/Access.antt =====
-- `empty_bitset`, `set_bit` and `get_bit` against the set of numbers that a bitset stands for.
use native.Mathlib.Decide.{ℕ_discrete}
use mariobr_os.Base.{
  ℕ, zero, suc, ◌+◌, ◌*◌, ◌/◌, ◌%◌, ◌^◌, ◌≤◌, ◌<◌, ◌≡◌, ◌≢◌, refl, subst, inl, inr, Bool, true,
  false, List, arith, ◌==◌, eq→==, ne→==, if◌then◌else◌, is_true, to_int, length, get_or, set,
  replicate, length-set, length-replicate, get_or-set_self, get_or-set_ne, Bool-cases,
}
use mariobr_os.Base.Bits.{bit, bit-zero}
use mariobr_os.Bitset.{Bitset, word, empty_bitset, set_bit, get_bit}
use mariobr_os.Bitset.Words.{test_mask, put, bit-put_self, bit-put_ne, put-lt}
use mariobr_os.Math.{ceil_multiple}
use mariobr_os.Math.Rounding.{ceil_multiple_bounds}

-- A whole number of words of 32 bits.
pub record IsValid (b : Bitset) : Type 0 where
  pub whole : length b.bits * 32 ≡ b.length
  pub small : b.length < 2 ^ 32
  pub words : (i : ℕ) → word b i < 2 ^ 32

-- The bit of a number, as the code reads it.
pub get_bit-bit : (b : Bitset) (n : ℕ) → get_bit b n ≡ (bit (word b (n / 32)) (n % 32) == 1)
unfolding get_bit
get_bit-bit b n = test_mask (word b (n / 32)) (n % 32) (omega arith)

word-set :
    (xs : List ℕ) (i j v : ℕ)
    → i < length xs
    → get_or (set xs i v) j 0 ≡ (if i == j then v else get_or xs j 0)
word-set xs i j v h = elim (ℕ_discrete i j) [
  | yes e ↦
      rw (eq→== i j e) (subst (λ k. get_or (set xs i v) k 0 ≡ v) e (get_or-set_self xs i v 0 h))
  | no ne ↦ rw (ne→== i j ne) (get_or-set_ne xs i j v 0 ne)
]

-- `set_bit` keeps a bitset well formed.
pub set_bit-IsValid : (b : Bitset) (n v : ℕ) → IsValid b → n < b.length → IsValid (set_bit b n v)
unfolding set_bit
set_bit-IsValid b n v valid h = record {
  whole = omega (arith, length-set b.bits (n / 32) new, valid.whole);
  small = valid.small;
  words = λ i. rw (word-set b.bits (n / 32) i new (omega (arith, valid.whole))) (bound i);
}
  where
    new : ℕ
    new = put (word b (n / 32)) (n % 32) (to_int (is_true v))

    new-lt : new < 2 ^ 32
    new-lt = put-lt (word b (n / 32)) (n % 32) (omega arith) (is_true v) (valid.words (n / 32))

    bound : (i : ℕ) → (if n / 32 == i then new else word b i) < 2 ^ 32
    bound i = elim (Bool-cases (n / 32 == i)) [ inl e ↦ rw e new-lt | inr e ↦ rw e (valid.words i) ]

bool-of-int : (c : Bool) → (to_int c == 1) ≡ c
bool-of-int true = refl
bool-of-int false = refl

module _ (b : Bitset) (n v : ℕ) (valid : IsValid b) (h : n < b.length) where
  new_word : ℕ
  new_word = put (word b (n / 32)) (n % 32) (to_int (is_true v))

  word-set_bit : (j : ℕ) → word (set_bit b n v) j ≡ (if n / 32 == j then new_word else word b j)
  unfolding set_bit new_word
  word-set_bit j = word-set b.bits (n / 32) j new_word (omega (arith, valid.whole))

  get_bit-set_self : get_bit (set_bit b n v) n ≡ is_true v
  unfolding new_word
  get_bit-set_self =
      rw (get_bit-bit (set_bit b n v) n, word-set_bit (n / 32), eq→== (n / 32) (n / 32) refl)
        (rw (bit-put_self (word b (n / 32)) (n % 32) (omega arith) (is_true v))
          (bool-of-int (is_true v)))

  get_bit-set_same_word :
      (m : ℕ) → n / 32 ≡ m / 32 → n ≢ m → get_bit (set_bit b n v) m ≡ get_bit b m
  unfolding new_word
  get_bit-set_same_word m e ne =
      rw (get_bit-bit (set_bit b n v) m, get_bit-bit b m, word-set_bit (m / 32), eq→== _ _ e, ← e)
        (rw (
          bit-put_ne (word b (n / 32)) (n % 32) (omega arith) (is_true v) (m % 32) (omega arith)
            (omega arith)))

  get_bit-set_other_word : (m : ℕ) → n / 32 ≢ m / 32 → get_bit (set_bit b n v) m ≡ get_bit b m
  get_bit-set_other_word m ne =
      rw (get_bit-bit (set_bit b n v) m, get_bit-bit b m, word-set_bit (m / 32), ne→== _ _ ne)

  -- Reading a bit after `set_bit`: the written bit has the written value, every other bit is as
  -- before, if the written number is within the length of a well-formed bitset.
  pub get_bit-set_bit :
      (m : ℕ) → get_bit (set_bit b n v) m ≡ (if n == m then is_true v else get_bit b m)
  get_bit-set_bit m = elim (ℕ_discrete n m) [
    | yes e ↦
        rw (eq→== n m e) (subst (λ k. get_bit (set_bit b n v) k ≡ is_true v) e get_bit-set_self)
    | no ne ↦ rw (ne→== n m ne) (elim (ℕ_discrete (n / 32) (m / 32)) [
      | yes e ↦ get_bit-set_same_word m e ne
      | no other ↦ get_bit-set_other_word m other
    ])
  ]

get_or-replicate : (n i d : ℕ) → get_or (replicate n d) i d ≡ d
get_or-replicate zero i d = refl
get_or-replicate (suc n) zero d = refl
get_or-replicate (suc n) (suc i) d = get_or-replicate n i d

-- `empty_bitset` rounds the length up to whole words, and holds no number, if the length leaves
-- room for the rounding.
empty_bitset-empty :
    (n : ℕ)
    → n + 32 < 2 ^ 32
    → IsValid (empty_bitset n)
      × (n ≤ (empty_bitset n).length)
      × ((m : ℕ) → get_bit (empty_bitset n) m ≡ false)
unfolding empty_bitset
empty_bitset-empty n h = (
  record {
    whole = omega (
      arith,
      length-replicate {A = ℕ} (ceil_multiple n 32 / 32) 0,
      (ceil_multiple_bounds n 32 (omega arith) (omega arith)).0,
    );
    small = omega (arith, (ceil_multiple_bounds n 32 (omega arith) (omega arith)).2);
    words = λ i. rw (get_or-replicate (ceil_multiple n 32 / 32) i 0) (omega arith);
  },
  (ceil_multiple_bounds n 32 (omega arith) (omega arith)).1,
  λ m. rw (
    get_bit-bit (empty_bitset n) m,
    get_or-replicate (ceil_multiple n 32 / 32) (m / 32) 0,
    bit-zero (m % 32),
  ),
)
