-- ===== src/Bitset/Words.antt =====
-- Masks of one bit in a word of a bitset.
use native.Mathlib.Nat.{one-le-pow, pow-suc}
use mariobr_os.Base.{
  ℕ, zero, suc, ◌-◌, ◌*◌, ◌^◌, ◌<◌, ◌≡◌, ◌≢◌, refl, ap, ◌∙◌, Bool, true, false, arith, bit_and,
  bit_or, ◌==◌, is_true, to_int,
}
use mariobr_os.Base.Bits.{
  bit, bit-lt-two, bit-zero, bit-and, bit-or, bit-pow_self, bit-pow_ne, bit-not, and-pow, and-le,
  or-lt,
}
use mariobr_os.Bitset.{shl32, not32}

-- Shifting 1 by less than the width loses nothing.
pow-lt : (w j : ℕ) → j < w → 2 ^ j < 2 ^ w
pow-lt zero j h = absurd (omega arith)
pow-lt (suc w) zero h = omega (arith, pow-suc 2 w, one-le-pow w 2)
pow-lt (suc w) (suc j) h = omega (arith, pow-suc 2 w, pow-suc 2 j, pow-lt w j (omega arith))

pub shl32-one : (j : ℕ) → j < 32 → shl32 1 j ≡ 2 ^ j
shl32-one j h = omega (arith, pow-lt 32 j h)

-- The test of one bit.
pub test_mask : (w j : ℕ) → j < 32 → is_true (bit_and w (shl32 1 j)) ≡ (bit w j == 1)
test_mask w j h = rw (shl32-one j h, and-pow w j) (by_value (bit w j) (bit-lt-two w j))
  where
    positive : (n : ℕ) → 0 < n → is_true n ≡ true
    positive zero p = absurd (omega arith)
    positive (suc n) p = refl

    by_value : (v : ℕ) → v < 2 → is_true (v * 2 ^ j) ≡ (v == 1)
    by_value zero p = ap is_true {y = 0} (omega arith)
    by_value (suc zero) p = positive _ (omega (arith, one-le-pow j 2))
    by_value (suc (suc v)) p = absurd (omega arith)

-- Bit `i` of `(w & ~(1 << j)) | (v << j)`.
abbrev pub put : ℕ → ℕ → ℕ → ℕ
put w j v = bit_or (bit_and w (not32 (shl32 1 j))) (shl32 v j)

module _ (w j : ℕ) (h : j < 32) where
  bit-put_mask : (i : ℕ) → i < 32 → bit (not32 (shl32 1 j)) i ≡ 1 - bit (2 ^ j) i
  bit-put_mask i k = rw (shl32-one j h) (bit-not 32 (2 ^ j) i (pow-lt 32 j h) k)

  bit-value_self : (b : Bool) → bit (shl32 (to_int b) j) j ≡ to_int b
  bit-value_self true = rw (shl32-one j h) (bit-pow_self j)
  bit-value_self false = ap (λ t. bit t j) {y = 0} (omega arith) ∙ bit-zero j

  bit-value_ne : (b : Bool) (i : ℕ) → i ≢ j → bit (shl32 (to_int b) j) i ≡ 0
  bit-value_ne true i ne = rw (shl32-one j h) (bit-pow_ne j i ne)
  bit-value_ne false i ne = ap (λ t. bit t i) {y = 0} (omega arith) ∙ bit-zero i

  pub bit-put_self : (b : Bool) → bit (put w j (to_int b)) j ≡ to_int b
  bit-put_self b = omega (
    arith,
    bit-or (bit_and w (not32 (shl32 1 j))) (shl32 (to_int b) j) j,
    bit-and w (not32 (shl32 1 j)) j,
    bit-put_mask j h,
    bit-pow_self j,
    bit-value_self b,
  )

  pub bit-put_ne : (b : Bool) (i : ℕ) → i < 32 → i ≢ j → bit (put w j (to_int b)) i ≡ bit w i
  bit-put_ne b i k ne = omega (
    arith,
    bit-or (bit_and w (not32 (shl32 1 j))) (shl32 (to_int b) j) i,
    bit-and w (not32 (shl32 1 j)) i,
    bit-put_mask i k,
    bit-pow_ne j i ne,
    bit-value_ne b i ne,
    bit-lt-two w i,
  )

  pub put-lt : (b : Bool) → w < 2 ^ 32 → put w j (to_int b) < 2 ^ 32
  put-lt b k =
      or-lt 32 (bit_and w (not32 (shl32 1 j))) (shl32 (to_int b) j)
        (omega (arith, and-le w w (not32 (shl32 1 j)))) (omega arith)
