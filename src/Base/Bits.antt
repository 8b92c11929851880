-- ===== src/Base/Bits.antt =====
-- Single bits of a word, and what `&`, `|`, `~` and `<<` do to them.
use Prim.Native.Nat.{
  ℕ, zero, suc, ◌+◌, ◌-◌, ◌*◌, ◌/◌, ◌%◌, ◌^◌, ◌≤◌, ◌<◌, min, max, bit_and, bit_or, digits, bitwise,
  bit_and-bitwise, bit_or-bitwise, bit_xor, bit_xor-bitwise, differ,
}
use mathlib.Core.Path.{◌≡◌, refl, sym, ap, ap₂, ◌∙◌}
use mathlib.Core.Logic.{◌≢◌}
use native.Mathlib.Nat.{pow-suc, one-le-pow}
use native.Mathlib.Omega.{arith}

-- Bit `i` of `a`.
abbrev pub bit : ℕ → ℕ → ℕ
bit a zero = a % 2
bit a (suc i) = bit (a / 2) i

-- The fuel of `digits` does not matter once it reaches the first number.
module _ (rest : ℕ → ℕ) (join : ℕ → ℕ → ℕ) where
  enough_fuel : (k l x y : ℕ) → x ≤ k → x ≤ l → digits rest join k x y ≡ digits rest join l x y
  enough_fuel k l zero y hk hl = at_zero k ∙ sym (at_zero l)
    where
      at_zero : (m : ℕ) → digits rest join m zero y ≡ rest y
      at_zero zero = refl
      at_zero (suc m) = refl
  enough_fuel zero l (suc x) y hk hl = absurd (omega arith)
  enough_fuel (suc k) zero (suc x) y hk hl = absurd (omega arith)
  enough_fuel (suc k) (suc l) (suc x) y hk hl =
      ap (λ t. t * 2 + join (suc x % 2) (y % 2))
        (enough_fuel k l (suc x / 2) (y / 2) (omega arith) (omega arith))

  -- One step of `bitwise`, with the fuel dropped.
  bitwise_unroll :
      (x y : ℕ)
      → 0 < x
      → bitwise rest join x y ≡ bitwise rest join (x / 2) (y / 2) * 2 + join (x % 2) (y % 2)
  bitwise_unroll zero y h = absurd (omega arith)
  bitwise_unroll (suc x) y h =
      ap (λ t. t * 2 + join (suc x % 2) (y % 2))
        (enough_fuel x (suc x / 2) (suc x / 2) (y / 2) (omega arith) (omega arith))

zero-and : (y : ℕ) → bit_and 0 y ≡ 0
zero-and y = bit_and-bitwise 0 y

zero-or : (y : ℕ) → bit_or 0 y ≡ y
zero-or y = bit_or-bitwise 0 y

and_unroll : (x y : ℕ) → bit_and x y ≡ bit_and (x / 2) (y / 2) * 2 + min (x % 2) (y % 2)
and_unroll zero y = omega (arith, zero-and y, zero-and (y / 2))
and_unroll (suc x) y = omega (
  arith,
  bit_and-bitwise (suc x) y,
  bit_and-bitwise (suc x / 2) (y / 2),
  bitwise_unroll (λ _. 0) min (suc x) y (omega arith),
)

or_unroll : (x y : ℕ) → bit_or x y ≡ bit_or (x / 2) (y / 2) * 2 + max (x % 2) (y % 2)
or_unroll zero y = omega (arith, zero-or y, zero-or (y / 2))
or_unroll (suc x) y = omega (
  arith,
  bit_or-bitwise (suc x) y,
  bit_or-bitwise (suc x / 2) (y / 2),
  bitwise_unroll (λ t. t) max (suc x) y (omega arith),
)

pub bit-lt-two : (a i : ℕ) → bit a i < 2
bit-lt-two a zero = omega arith
bit-lt-two a (suc i) = bit-lt-two (a / 2) i

pub bit-zero : (i : ℕ) → bit 0 i ≡ 0
bit-zero zero = refl
bit-zero (suc i) = bit-zero i

pub bit-and : (a b i : ℕ) → bit (bit_and a b) i ≡ min (bit a i) (bit b i)
bit-and a b zero = omega (arith, and_unroll a b)
bit-and a b (suc i) = ap (λ t. bit t i) (omega (arith, and_unroll a b)) ∙ bit-and (a / 2) (b / 2) i

pub bit-or : (a b i : ℕ) → bit (bit_or a b) i ≡ max (bit a i) (bit b i)
bit-or a b zero = omega (arith, or_unroll a b)
bit-or a b (suc i) = ap (λ t. bit t i) (omega (arith, or_unroll a b)) ∙ bit-or (a / 2) (b / 2) i

-- The bits of a power of two.
pub bit-pow_self : (j : ℕ) → bit (2 ^ j) j ≡ 1
bit-pow_self zero = refl
bit-pow_self (suc j) = ap (λ t. bit t j) (omega (arith, pow-suc 2 j)) ∙ bit-pow_self j

pub bit-pow_ne : (j i : ℕ) → i ≢ j → bit (2 ^ j) i ≡ 0
bit-pow_ne zero zero h = absurd (h refl)
bit-pow_ne zero (suc i) h = bit-zero i
bit-pow_ne (suc j) zero h = omega (arith, pow-suc 2 j)
bit-pow_ne (suc j) (suc i) h =
    ap (λ t. bit t i) (omega (arith, pow-suc 2 j)) ∙ bit-pow_ne j i (λ e. h (ap suc e))

-- The complement within `w` bits.
pub bit-not : (w a i : ℕ) → a < 2 ^ w → i < w → bit (2 ^ w - 1 - a) i ≡ 1 - bit a i
bit-not zero a i h k = absurd (omega arith)
bit-not (suc w) a zero h k = omega (arith, pow-suc 2 w)
bit-not (suc w) a (suc i) h k =
    ap (λ t. bit t i) (omega (arith, pow-suc 2 w))
    ∙ bit-not w (a / 2) i (omega (arith, pow-suc 2 w)) (omega arith)

-- A mask with one bit selects that bit.
pub and-pow : (a j : ℕ) → bit_and a (2 ^ j) ≡ bit a j * 2 ^ j
and-pow a zero = omega (arith, and_unroll a 1, and_zero (a / 2))
  where
    and_zero_fuel : (n x : ℕ) → x ≤ n → bit_and x 0 ≡ 0
    and_zero_fuel zero x h = ap (λ t. bit_and t 0) {y = 0} (omega arith)
    and_zero_fuel (suc n) x h = omega (arith, and_unroll x 0, and_zero_fuel n (x / 2))

    and_zero : (x : ℕ) → bit_and x 0 ≡ 0
    and_zero x = and_zero_fuel x x (omega arith)
and-pow a (suc j) = omega (
  arith,
  and_unroll a (2 ^ suc j),
  pow-suc 2 j,
  ap (λ t. bit_and (a / 2) t) {x = 2 ^ suc j / 2} {y = 2 ^ j} (omega (arith, pow-suc 2 j)),
  ap (λ (t : ℕ). bit (a / 2) j * t) (pow-suc 2 j),
  and-pow (a / 2) j,
)

-- A word of `w` bits that are all set is the largest one.
pub all_set : (w a : ℕ) → a < 2 ^ w → ((i : ℕ) → i < w → bit a i ≡ 1) → a ≡ 2 ^ w - 1
all_set zero a h all = omega arith
all_set (suc w) a h all = omega (
  arith,
  pow-suc 2 w,
  all 0 (omega arith),
  all_set w (a / 2) (omega (arith, pow-suc 2 w)) (λ i k. all (suc i) (omega arith)),
)

-- Every bit of the largest word is set.
pub bit-ones : (w i : ℕ) → i < w → bit (2 ^ w - 1) i ≡ 1
bit-ones zero i h = absurd (omega arith)
bit-ones (suc w) zero h = omega (arith, pow-suc 2 w, one-le-pow w 2)
bit-ones (suc w) (suc i) h =
    ap (λ t. bit t i) (omega (arith, pow-suc 2 w, one-le-pow w 2)) ∙ bit-ones w i (omega arith)

-- Results of `&` and `|` keep the width.
pub and-le : (n a b : ℕ) → a ≤ n → bit_and a b ≤ a
and-le zero a b h = omega (arith, zero-and b, ap (λ t. bit_and t b) {x = a} {y = 0} (omega arith))
and-le (suc n) a b h = omega (arith, and_unroll a b, and-le n (a / 2) (b / 2))

pub or-lt : (w a b : ℕ) → a < 2 ^ w → b < 2 ^ w → bit_or a b < 2 ^ w
or-lt zero a b ha hb = omega (arith, zero-or b, ap (λ t. bit_or t b) {x = a} {y = 0} (omega arith))
or-lt (suc w) a b ha hb = omega (arith, pow-suc 2 w, or_unroll a b, or-lt w (a / 2) (b / 2))

pub zero-xor : (y : ℕ) → bit_xor 0 y ≡ y
zero-xor y = bit_xor-bitwise 0 y

xor_unroll : (x y : ℕ) → bit_xor x y ≡ bit_xor (x / 2) (y / 2) * 2 + differ (x % 2) (y % 2)
xor_unroll zero y = omega (arith, zero-xor y, zero-xor (y / 2), differ_zero (y % 2))
  where
    differ_zero : (m : ℕ) → differ 0 m ≡ m
    differ_zero m = refl
xor_unroll (suc x) y = omega (
  arith,
  bit_xor-bitwise (suc x) y,
  bit_xor-bitwise (suc x / 2) (y / 2),
  bitwise_unroll (λ t. t) differ (suc x) y (omega arith),
)

differ-zero : (a : ℕ) → differ a 0 ≡ a
differ-zero zero = refl
differ-zero (suc a) = refl

-- One step of `^` with a power of two.
xor_pow_step : (j x : ℕ) → bit_xor x (2 ^ suc j) ≡ bit_xor (x / 2) (2 ^ j) * 2 + x % 2
xor_pow_step j x =
    xor_unroll x (2 ^ suc j)
    ∙ ap₂ (λ a b. bit_xor (x / 2) a * 2 + differ (x % 2) b) {x = 2 ^ suc j / 2} {y = 2 ^ j}
        {u = 2 ^ suc j % 2} {v = 0} (omega (arith, pow-suc 2 j)) (omega (arith, pow-suc 2 j))
    ∙ ap (λ b. bit_xor (x / 2) (2 ^ j) * 2 + b) (differ-zero (x % 2))

-- `^` with the top bit of a word clears it where it is set, and sets it where it is clear.
pub xor-top_set : (j x : ℕ) → 2 ^ j ≤ x → x < 2 ^ suc j → bit_xor x (2 ^ j) ≡ x - 2 ^ j
xor-top_set zero x h k = ap (λ t. bit_xor t 1) {x = x} {y = 1} (omega arith) ∙ omega arith
xor-top_set (suc j) x h k =
    xor_pow_step j x
    ∙ omega (
      arith,
      pow-suc 2 j,
      pow-suc 2 (suc j),
      xor-top_set j (x / 2) (omega (arith, pow-suc 2 j)) (omega (arith, pow-suc 2 (suc j))),
    )

pub xor-top_clear : (j x : ℕ) → x < 2 ^ j → bit_xor x (2 ^ j) ≡ x + 2 ^ j
xor-top_clear zero x h = ap (λ t. bit_xor t 1) {x = x} {y = 0} (omega arith) ∙ omega arith
xor-top_clear (suc j) x h =
    xor_pow_step j x
    ∙ omega (arith, pow-suc 2 j, xor-top_clear j (x / 2) (omega (arith, pow-suc 2 j)))
