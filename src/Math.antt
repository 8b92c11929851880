-- ===== src/Math.antt =====
-- src/math.c and src/utils.c: ratios and multiples of 32-bit unsigned numbers.
pub mod Rounding
mod Tests
use mariobr_os.Base.{
  ℕ, ◌+◌, ◌-◌, ◌*◌, ◌/◌, ◌%◌, ◌^◌, ◌≤◌, ◌<◌, ◌≡◌, arith, ltb, ◌==◌, if◌then◌else◌, is_true, u32_mod,
  add32, sub32,
}

unfoldable pub floor_ratio : ℕ → ℕ → ℕ
floor_ratio a b = a / b

unfoldable pub ceil_ratio : ℕ → ℕ → ℕ
ceil_ratio a b = let q = a / b in if a == (q * b) % u32_mod then q else add32 q 1

unfoldable pub floor_multiple : ℕ → ℕ → ℕ
floor_multiple n k = (k * (n / k)) % u32_mod

unfoldable pub ceil_multiple : ℕ → ℕ → ℕ
ceil_multiple n k = if is_true (n % k) then add32 (sub32 n (n % k)) k else n

-- `max` of src/utils.c.
unfoldable pub max_u32 : ℕ → ℕ → ℕ
max_u32 a b = if ltb b a then a else b
