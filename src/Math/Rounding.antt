-- ===== src/Math/Rounding.antt =====
-- What the rounding functions of src/math.c promise, within 32 bits.
use mariobr_os.Base.{
  ℕ, ◌+◌, ◌*◌, ◌/◌, ◌%◌, ◌^◌, ◌≤◌, ◌<◌, ◌≡◌, arith, ◌==◌, is_true, u32_mod, zero, suc, refl, ap,
  ◌∙◌, add32, sub32, Bool-cases, ==→eq, ==→ne, ◌≢◌, inl, inr, true, false,
}
use mariobr_os.Math.{ceil_ratio, ceil_multiple}
use native.Mathlib.Nat.{
  div-add-mod, div-add-mod', div-mul-le_self, mod-lt, mul-add-mod_self_left, mul-mod_right,
  mul-le-mul_left,
}

is_true-pos : (n : ℕ) → is_true n ≡ true → 0 < n
is_true-pos zero h = cc
is_true-pos (suc n) h = omega arith

is_true-zero : (n : ℕ) → is_true n ≡ false → n ≡ 0
is_true-zero zero h = refl
is_true-zero (suc n) h = cc

-- The value where `n` is no multiple, with no wrap.
ceil_value :
    (n k : ℕ) → 0 < k → n + k ≤ 2 ^ 32 → 0 < n % k → add32 (sub32 n (n % k)) k ≡ k * (n / k) + k * 1
ceil_value n k hk h hr = omega (arith, div-add-mod n k, mod-lt n hk)

rounded_up :
    (n k v : ℕ) → 0 < k → 0 < n % k → v ≡ k * (n / k) + k * 1 → (v % k ≡ 0) × (n ≤ v) × (v < n + k)
rounded_up n k v hk hr e = (
  rw (e, mul-add-mod_self_left k (n / k) (k * 1)) (mul-mod_right k 1),
  omega (arith, div-add-mod n k, mod-lt n hk),
  omega (arith, div-add-mod n k, mod-lt n hk),
)

-- `ceil_multiple n k` is the least multiple of `k` that is at least `n`: a multiple, not below
-- `n`, and less than `k` above it, if `k` is positive and `n + k` fits 32 bits.
pub ceil_multiple_bounds :
    (n k : ℕ)
    → 0 < k
    → n + k ≤ 2 ^ 32
    → (ceil_multiple n k % k ≡ 0) × (n ≤ ceil_multiple n k) × (ceil_multiple n k < n + k)
unfolding ceil_multiple
ceil_multiple_bounds n k hk h = elim (Bool-cases (is_true (n % k))) [
  | inl e ↦ rw e (rounded_up n k _ hk (is_true-pos _ e) (ceil_value n k hk h (is_true-pos _ e)))
  | inr e ↦ rw e (is_true-zero _ e, omega arith, omega arith)
]

-- `ceil_ratio a b` blocks of size `b` hold `a` bytes, and one block less does not, on 32-bit
-- operands with `b` positive.
pub ceil_ratio_bounds :
    (a b : ℕ) → a < 2 ^ 32 → 0 < b → (a ≤ ceil_ratio a b * b) × (ceil_ratio a b * b < a + b)
unfolding ceil_ratio
ceil_ratio_bounds a b ha hb = elim (Bool-cases (a == (a / b * b) % u32_mod)) [
  | inl e ↦
      rw e (omega (arith, ==→eq _ _ e, div-mul-le_self a b), omega (arith, div-mul-le_self a b))
  | inr e ↦ rw e (
    omega (arith, ==→ne _ _ e, div-add-mod' a b, mod-lt a hb, step),
    omega (arith, ==→ne _ _ e, div-add-mod' a b, mod-lt a hb, step),
  )
]
  where
    step : a / b * b ≢ a → add32 (a / b) 1 * b ≡ a / b * b + b
    step ne =
        ap (λ t. t * b) {x = add32 (a / b) 1} {y = a / b + 1}
          (omega (
            arith,
            div-add-mod' a b,
            mul-le-mul_left {m = 2} {n = b} (a / b) (omega (arith, div-add-mod' a b, mod-lt a hb)),
          ))
        ∙ omega arith
