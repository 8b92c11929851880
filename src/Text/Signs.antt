-- ===== src/Text/Signs.antt =====
-- Signs: `int_to_string` writes a minus before the digits of a negative number only.
use native.Mathlib.Nat.{mod-lt, lt_of_lt_of_le}
use mariobr_os.Base.{
  ℕ, zero, suc, ◌-◌, ◌/◌, ◌%◌, ◌^◌, ◌≤◌, ◌<◌, ◌≡◌, ◌≢◌, refl, ap, ◌∙◌, Bool, false, Option, none,
  some, List, [], ◌∷◌, ◌==◌, if◌then◌else◌, ltb, arith, Bool-cases, ne→==, ltb→le, inl, inr,
}
use mariobr_os.Text.{digit_to_char, digit_count, write_digits, u_int_to_string, int_to_string}
use mariobr_os.Text.Numerals.{value_from, u_int_to_string-value}

abbrev pub has_minus : List ℕ → Bool
has_minus [] = false
has_minus (c ∷ s) = c == 45

abbrev tail : List ℕ → List ℕ
tail [] = []
tail (c ∷ s) = s

-- The bit pattern of the number that a numeral with or without a minus stands for.
abbrev pub signed_value : ℕ → List ℕ → ℕ
signed_value base s =
    if has_minus s then 2 ^ 32 - value_from base 0 (tail s) else value_from base 0 s

abbrev pub read_back : ℕ → Option (List ℕ) → Option ℕ
read_back base none = none
read_back base (some s) = some (signed_value base s)

digit_to_char-no_minus : (d : ℕ) → d < 36 → digit_to_char d == 45 ≡ false
unfolding digit_to_char
digit_to_char-no_minus d h = ground arith

write_digits-no_minus :
    (n num base d : ℕ) (s : List ℕ)
    → 0 < base
    → base ≤ 36
    → d < 36
    → has_minus (write_digits n num base (digit_to_char d ∷ s)) ≡ false
unfolding write_digits
write_digits-no_minus zero num base d s hb hc h = digit_to_char-no_minus d h
write_digits-no_minus (suc n) num base d s hb hc h =
    write_digits-no_minus n (num / base) base (num % base) (digit_to_char d ∷ s) hb hc
      (lt_of_lt_of_le (mod-lt num hb) hc)

all_digits-no_minus :
    (n num base : ℕ) → 0 < base → base ≤ 36 → has_minus (write_digits n num base []) ≡ false
unfolding write_digits
all_digits-no_minus zero num base hb hc = refl
all_digits-no_minus (suc n) num base hb hc =
    write_digits-no_minus n (num / base) base (num % base) [] hb hc
      (lt_of_lt_of_le (mod-lt num hb) hc)

u_int_to_string-no_minus :
    (num base : ℕ) → 2 ≤ base → base ≤ 36 → has_minus (u_int_to_string num base) ≡ false
unfolding u_int_to_string
u_int_to_string-no_minus num base hb hc =
    all_digits-no_minus (digit_count 32 num base) num base (omega arith) hc

signed_value-u_int_to_string :
    (num base : ℕ)
    → num < 2 ^ 32
    → 2 ≤ base
    → base ≤ 36
    → signed_value base (u_int_to_string num base) ≡ num
signed_value-u_int_to_string num base h hb hc =
    rw (u_int_to_string-no_minus num base hb hc) (u_int_to_string-value num base h hb hc)

-- `int_to_string` on every number of 32 bits but the least one, in a base from 2 to 36, writes a
-- numeral, with a minus for a negative number, that reads back as the number.
pub int_to_string-value :
    (num base : ℕ)
    → num < 2 ^ 32
    → num ≢ 2 ^ 31
    → 2 ≤ base
    → base ≤ 36
    → read_back base (int_to_string num base) ≡ some num
unfolding int_to_string
int_to_string-value num base h hn hb hc = elim (Bool-cases (ltb num (2 ^ 31))) [
  | inl e ↦ rw e (ap some (signed_value-u_int_to_string num base h hb hc))
  | inr e ↦
      let g = ltb→le num (2 ^ 31) e in
      rw (e, ne→== num (2 ^ 31) hn)
        (ap (λ t. some (2 ^ 32 - t))
            (u_int_to_string-value (2 ^ 32 - num) base (omega (arith, g)) hb hc)
          ∙ ap some (omega arith))
]
