-- ===== src/Text.antt =====
-- src/string.c: strings, here the lists of their bytes before the terminating zero. A function that
-- fills a buffer returns what it holds; allocations are fresh.
pub mod Compare
pub mod Numerals
pub mod Signs
pub mod Splitting
pub mod Format
mod Tests
use mathlib.Core.Option
use mathlib.Core.List
use mariobr_os.Base.{
  ℕ, zero, suc, ◌+◌, ◌-◌, ◌*◌, ◌/◌, ◌%◌, ◌^◌, Bool, true, false, not, ◌&&◌, Option, none, some,
  List, [], ◌∷◌, ◌++◌, ◌==◌, if◌then◌else◌, ltb, leb, length, add32,
}

-- `str_length`, a loop up to the terminating zero.
unfoldable pub str_length : List ℕ → ℕ
str_length [] = 0
str_length (c ∷ s) = suc (str_length s)

-- `str_cmp`: the loop stops at the end of a string or at the first difference, and compares the
-- bytes there, the terminating zeros included.
unfoldable pub str_cmp : List ℕ → List ℕ → Bool
str_cmp [] [] = true
str_cmp [] (d ∷ b) = 0 == d
str_cmp (c ∷ a) [] = c == 0
str_cmp (c ∷ a) (d ∷ b) = let rest = str_cmp a b in if c == d then rest else false

unfoldable pub str_cat : List ℕ → List ℕ → List ℕ
str_cat a b = a ++ b

-- The result is a `char`.
unfoldable pub digit_to_char : ℕ → ℕ
digit_to_char digit = if leb digit 9 then 48 + digit else (65 + digit - 10) % 256

-- The first loop, on fuel: the number of digits, from a number and a base.
unfoldable pub digit_count : ℕ → ℕ → ℕ → ℕ
digit_count zero n base = 0
digit_count (suc fuel) n base = elim (n / base == 0) [
  | true ↦ 1
  | false ↦ suc (digit_count fuel (n / base) base)
]

-- The second loop, with the rounds that are left: it fills the buffer from the last place on, so
-- each digit comes before those that are there.
unfoldable pub write_digits : ℕ → ℕ → ℕ → List ℕ → List ℕ
write_digits zero num base str = str
write_digits (suc n) num base str =
    write_digits n (num / base) base (digit_to_char (num % base) ∷ str)

-- A number of 32 bits has at most 32 digits.
unfoldable pub u_int_to_string : ℕ → ℕ → List ℕ
u_int_to_string num base = write_digits (digit_count 32 num base) num base []

-- An `int` is its bit pattern. The least one has no negation: the code overflows on it.
unfoldable pub int_to_string : ℕ → ℕ → Option (List ℕ)
int_to_string num base =
    if ltb num (2 ^ 31)
    then some (u_int_to_string num base)
    else if num == 2 ^ 31
    then none
    else some (45 ∷ u_int_to_string (2 ^ 32 - num) base)

-- `!(pos == 0 && !empty)`, for what the buffer holds.
abbrev pub flushes : List ℕ → Bool → Bool
flushes [] empty = empty
flushes (x ∷ buffer) empty = true

-- The word in the buffer, of 128 bytes with the terminating zero, goes to the front of the list.
abbrev pub flush : List ℕ → List (List ℕ) → Option (List (List ℕ))
flush buffer res = if ltb (length buffer) 128 then some (buffer ∷ res) else none

-- The loop of `str_split`, and the flush after it. `none` is a write past the buffer.
unfoldable pub split_from : List ℕ → ℕ → Bool → List ℕ → List (List ℕ) → Option (List (List ℕ))
split_from [] c empty buffer res = if flushes buffer empty then flush buffer res else some res
split_from (x ∷ s) c empty buffer res = elim (x == c) [
  | true ↦ elim (flushes buffer empty) [
    | true ↦ elim (ltb (length buffer) 128) [
      | true ↦ split_from s c empty [] (buffer ∷ res)
      | false ↦ none
    ]
    | false ↦ split_from s c empty buffer res
  ]
  | false ↦ elim (ltb (length buffer) 128) [
    | true ↦ split_from s c empty (buffer ++ x ∷ []) res
    | false ↦ none
  ]
]

-- The words are pushed in front of each other, and reversed at the end.
unfoldable pub str_split : List ℕ → ℕ → Bool → Option (List (List ℕ))
unfolding split_from
str_split s c empty = Option.map List.reverse (split_from s c empty [] [])
