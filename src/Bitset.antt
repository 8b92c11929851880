-- ===== src/Bitset.antt =====
-- src/bitset.c: sets of numbers, a bit each, in an array of 32-bit words.
-- `mem_alloc` gives a fresh array; an access past its end reads 0 and writes nothing.
pub mod Words
pub mod Access
pub mod Search
pub mod Loops
pub mod Free
mod Tests
use mariobr_os.Base.{
  ℕ, zero, suc, ◌+◌, ◌-◌, ◌*◌, ◌/◌, ◌%◌, ◌^◌, Bool, true, false, Option, none, some, List, bit_and,
  bit_or, ◌==◌, if◌then◌else◌, is_true, to_int, u32_mod, add32, length, get_or, set, replicate,
}
use mariobr_os.Math.{ceil_multiple}

pub record Bitset : Type 0 where
  pub bits : List ℕ
  pub length : ℕ

-- `x << k` on 32 bits.
abbrev pub shl32 : ℕ → ℕ → ℕ
shl32 x k = (x * 2 ^ k) % u32_mod

-- `~x` on 32 bits.
abbrev pub not32 : ℕ → ℕ
not32 x = 2 ^ 32 - 1 - x

-- The result of a search that finds nothing, `(u_int32)(-1)`; also a word with no false bit.
abbrev pub all_ones : ℕ
all_ones = 2 ^ 32 - 1

abbrev pub word : Bitset → ℕ → ℕ
word b i = get_or b.bits i 0

unfoldable pub empty_bitset : ℕ → Bitset
empty_bitset n =
    let size : ℕ = ceil_multiple n 32 in record { bits = replicate (size / 32) 0; length = size }

unfoldable pub set_bit : Bitset → ℕ → ℕ → Bitset
set_bit b n value =
    let i = n / 32 in
    let o = n % 32 in
    let cleared = bit_and (word b i) (not32 (shl32 1 o)) in
    record b { bits = set b.bits i (bit_or cleared (shl32 (to_int (is_true value)) o)) }

unfoldable pub get_bit : Bitset → ℕ → Bool
get_bit b n = is_true (bit_and (word b (n / 32)) (shl32 1 (n % 32)))

-- `for (; j < 32; j++)` inside one word, with the rounds that are left.
unfoldable pub find_zero : ℕ → ℕ → ℕ → Option ℕ
find_zero zero w j = none
find_zero (suc n) w j = elim (is_true (bit_and w (shl32 1 j))) [
  | true ↦ find_zero n w (j + 1)
  | false ↦ some j
]

-- The loop over the words, from word `i` on.
unfoldable pub first_false_from : ℕ → Bitset → ℕ → ℕ
unfolding find_zero
first_false_from zero b i = all_ones
first_false_from (suc n) b i = elim (word b i == all_ones) [
  | true ↦ first_false_from n b (i + 1)
  | false ↦ elim (find_zero 32 (word b i) 0) [
    | some j ↦ add32 (32 * i) j
    | none ↦ first_false_from n b (i + 1)
  ]
]

unfoldable pub first_false_bit : Bitset → ℕ
unfolding first_false_from
first_false_bit b = first_false_from (b.length / 32) b 0

-- `j` is reset to 0 only after a word that was searched, not after a full one.
unfoldable pub param_ffb_from : ℕ → Bitset → ℕ → ℕ → ℕ
unfolding find_zero
param_ffb_from zero b i j = all_ones
param_ffb_from (suc n) b i j = elim (word b i == all_ones) [
  | true ↦ param_ffb_from n b (i + 1) j
  | false ↦ elim (find_zero (32 - j) (word b i) j) [
    | some k ↦ add32 (32 * i) k
    | none ↦ param_ffb_from n b (i + 1) 0
  ]
]

unfoldable pub param_ffb : Bitset → ℕ → ℕ
unfolding param_ffb_from
param_ffb b first = param_ffb_from (b.length / 32 - first / 32) b (first / 32) (first % 32)
