-- ===== src/Text/Numerals.antt =====
-- Numerals: the digits that are written stand for the number.
use native.Mathlib.Nat.{
  pow-zero, mod-lt, pow-suc, div-lt_iff_lt-mul, div-add-mod', add-mul, mul_assoc, add_assoc,
  lt_of_lt_of_le, mul-le-mul_left,
}
use mariobr_os.Base.{
  ℕ, zero, suc, ◌+◌, ◌-◌, ◌*◌, ◌/◌, ◌%◌, ◌^◌, ◌≤◌, ◌<◌, ◌≡◌, ap, subst, ◌∙◌, sym, List, [], ◌∷◌,
  ◌==◌, if◌then◌else◌, ltb, arith, Bool-cases, inl, inr, ==→eq,
}
use mariobr_os.Text.{digit_to_char, digit_count, write_digits, u_int_to_string}

-- The number that a digit stands for, and that a string of digits continues.
abbrev pub digit_value : ℕ → ℕ
digit_value c = if ltb c 65 then c - 48 else c - 55

abbrev pub value_from : ℕ → ℕ → List ℕ → ℕ
value_from base a [] = a
value_from base a (c ∷ s) = value_from base (a * base + digit_value c) s

digit_value-digit_to_char : (d : ℕ) → d < 36 → digit_value (digit_to_char d) ≡ d
unfolding digit_to_char
digit_value-digit_to_char d h = ground arith

-- A digit less bounds the quotient by a power less.
div-lt-pow : (num base n : ℕ) → 0 < base → num < base ^ suc n → num / base < base ^ n
div-lt-pow num base n hb h = (div-lt_iff_lt-mul hb).1 (subst (λ t. num < t) (pow-suc base n) h)

lt-pow-div : (num base n : ℕ) → 0 < base → num / base < base ^ n → num < base ^ suc n
lt-pow-div num base n hb h =
    subst (λ t. num < t) (sym (pow-suc base n)) ((div-lt_iff_lt-mul hb).0 h)

-- Reading one more digit multiplies what stands before it by the base.
digit_step : (a p num base : ℕ) → (a * p + num / base) * base + num % base ≡ a * (p * base) + num
digit_step a p num base =
    ap (λ t. t + num % base)
      (add-mul (a * p) (num / base) base ∙ ap (λ t. t + num / base * base) (mul_assoc a p base))
    ∙ add_assoc (a * (p * base)) (num / base * base) (num % base)
    ∙ ap (λ t. a * (p * base) + t) (div-add-mod' num base)

-- The digits of a number that has at most as many are a numeral of it.
write_digits-value :
    (n a num base : ℕ) (s : List ℕ)
    → 0 < base
    → base ≤ 36
    → num < base ^ n
    → value_from base a (write_digits n num base s) ≡ value_from base (a * base ^ n + num) s
unfolding write_digits
write_digits-value zero a num base s hb hc h =
    let e : base ^ 0 ≡ 1 = pow-zero base in
    ap (λ t. value_from base t s) (rw e (omega (arith, h, e)))
write_digits-value (suc n) a num base s hb hc h =
    write_digits-value n a (num / base) base (digit_to_char (num % base) ∷ s) hb hc
      (div-lt-pow num base n hb h)
    ∙ ap (λ t. value_from base ((a * base ^ n + num / base) * base + t) s)
        (digit_value-digit_to_char (num % base) (lt_of_lt_of_le (mod-lt num hb) hc))
    ∙ ap (λ t. value_from base t s) (digit_step a (base ^ n) num base)
    ∙ ap (λ t. value_from base (a * t + num) s) (sym (pow-suc base n))

-- A base from 2 on takes at least a binary digit off.
half-lt : (num base p : ℕ) → 2 ≤ base → num < p * 2 → num / base < p
half-lt num base p hb h =
    (div-lt_iff_lt-mul (omega arith)).1 (lt_of_lt_of_le h (mul-le-mul_left p hb))

digit_count-enough :
    (fuel num base : ℕ) → 2 ≤ base → num < 2 ^ fuel → num < base ^ digit_count fuel num base
unfolding digit_count
digit_count-enough zero num base hb h = subst (λ t. num < t) (sym (pow-zero base)) h
digit_count-enough (suc fuel) num base hb h = elim (Bool-cases (num / base == 0)) [
  | inl e ↦
      rw (e, digit_count)
        (lt-pow-div num base 0 (omega arith) (
          subst (λ t. t < base ^ 0) (sym (==→eq (num / base) 0 e))
            (subst (λ t. 0 < t) (sym (pow-zero base)) (omega arith))))
  | inr e ↦
      rw (e, digit_count)
        (lt-pow-div num base (digit_count fuel (num / base) base) (omega arith) (
          digit_count-enough fuel (num / base) base hb
            (half-lt num base (2 ^ fuel) hb (subst (λ t. num < t) (pow-suc 2 fuel) h))))
]

-- `u_int_to_string` on a number of 32 bits and a base from 2 to 36 writes a numeral of that number.
pub u_int_to_string-value :
    (num base : ℕ)
    → num < 2 ^ 32
    → 2 ≤ base
    → base ≤ 36
    → value_from base 0 (u_int_to_string num base) ≡ num
unfolding u_int_to_string
u_int_to_string-value num base h hb hc =
    write_digits-value (digit_count 32 num base) 0 num base [] (omega arith) hc
      (digit_count-enough 32 num base hb h)
    ∙ omega arith
