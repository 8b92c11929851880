-- ===== src/Text/Format.antt =====
-- `format_to_string` of src/string.c. The arguments are numbers and strings in their order. The index
-- `write`, an `int`, is not followed: a text of fewer than 2 ^ 31 bytes keeps it in its range.
use mathlib.Core.Option
use mariobr_os.Base.{
  ℕ, zero, suc, ◌+◌, ◌%◌, ◌^◌, ◌≡◌, ◌≢◌, ◌∙◌, refl, ap, Bool, true, false, ◌||◌, Option, none, some,
  List, [], ◌∷◌, ◌++◌, ◌==◌, if◌then◌else◌, length, replicate, sub32, ne→==, arith, leb, ◌<◌, ◌≤◌,
  ◌/◌, length-append, length-replicate,
}
use mariobr_os.Math.{max_u32}
use mariobr_os.Text.{int_to_string, u_int_to_string, digit_count, write_digits, digit_to_char}

pub data Arg : Type 0 where
  number : ℕ → Arg
  text : List ℕ → Arg

-- `va_arg` for a number; `none` is an argument that is missing or of another type.
abbrev pub with_number :
    (ℕ → List Arg → Option (List ℕ × List Arg)) → List Arg → Option (List ℕ × List Arg)
with_number f [] = none
with_number f (number n ∷ args) = f n args
with_number f (text t ∷ args) = none

abbrev pub with_text : List Arg → Option (List ℕ × List Arg)
with_text [] = none
with_text (number n ∷ args) = none
with_text (text t ∷ args) = some (t, args)

-- `%X`: the digits of the number, filled up with zeros; `max` and the difference are unsigned.
unfoldable pub padded_hex : ℕ → ℕ → List ℕ
padded_hex num min_length =
    let out = u_int_to_string num 16 in
    48 ∷ 120 ∷ (replicate (max_u32 0 (sub32 min_length (length out))) 48 ++ out)

-- The `switch` on the character behind `%`, for the characters it knows.
unfoldable pub convert : ℕ → List Arg → Option (List ℕ × List Arg)
convert c args =
    if c == 100
    then with_number (λ n rest. Option.map (λ t. (t, rest)) (int_to_string n 10)) args
    else if c == 117
    then with_number (λ n rest. some (u_int_to_string n 10, rest)) args
    else if c == 120
    then with_number (λ n rest. some (48 ∷ 120 ∷ u_int_to_string n 16, rest)) args
    else if c == 88
    then with_number (λ n. with_number (λ m rest. some (padded_hex n m, rest))) args
    else if c == 104
    then with_number (λ n rest. some (u_int_to_string n 16, rest)) args
    else if c == 99
    then with_number (λ n rest. some ((n % 2 ^ 8) ∷ [], rest)) args
    else with_text args

abbrev pub is_known : ℕ → Bool
is_known c =
    (c == 100) || (c == 117) || (c == 120) || (c == 88) || (c == 104) || (c == 99) || (c == 115)

abbrev pub written : List ℕ → Option (Bool × List ℕ) → Option (Bool × List ℕ)
written t none = none
written t (some (ok, out)) = some (ok, t ++ out)

-- Whether the format is valid, and the bytes that are written to the buffer.
unfoldable pub format_to_string : List ℕ → List Arg → Option (Bool × List ℕ)
format_to_string [] args = some (true, [])
format_to_string (c ∷ []) args = some (if c == 37 then (false, []) else (true, c ∷ []))
format_to_string (c ∷ d ∷ s) args = elim (c == 37) [
  | false ↦ written (c ∷ []) (format_to_string (d ∷ s) args)
  | true ↦ elim (is_known d) [
    | false ↦ some (false, [])
    | true ↦ elim (convert d args) [
      | none ↦ none
      | some (t, rest) ↦ written t (format_to_string s rest)
    ]
  ]
]

-- The pieces of a text, and the bytes that they stand for.
pub data Piece : Type 0 where
  literal : ℕ → Piece
  decimal : ℕ → Piece
  hex : ℕ → Piece
  digits : ℕ → Piece
  character : ℕ → Piece
  inserted : List ℕ → Piece

abbrev pub bytes : List Piece → List ℕ
bytes [] = []
bytes (literal c ∷ ps) = c ∷ bytes ps
bytes (decimal n ∷ ps) = u_int_to_string n 10 ++ bytes ps
bytes (hex n ∷ ps) = 48 ∷ 120 ∷ (u_int_to_string n 16 ++ bytes ps)
bytes (digits n ∷ ps) = u_int_to_string n 16 ++ bytes ps
bytes (character n ∷ ps) = (n % 2 ^ 8) ∷ bytes ps
bytes (inserted t ∷ ps) = t ++ bytes ps

-- The format and the arguments of a text.
abbrev pub format_of : List Piece → List ℕ
format_of [] = []
format_of (literal c ∷ ps) = c ∷ format_of ps
format_of (decimal n ∷ ps) = 37 ∷ 117 ∷ format_of ps
format_of (hex n ∷ ps) = 37 ∷ 120 ∷ format_of ps
format_of (digits n ∷ ps) = 37 ∷ 104 ∷ format_of ps
format_of (character n ∷ ps) = 37 ∷ 99 ∷ format_of ps
format_of (inserted t ∷ ps) = 37 ∷ 115 ∷ format_of ps

abbrev pub arguments : List Piece → List Arg
arguments [] = []
arguments (literal c ∷ ps) = arguments ps
arguments (decimal n ∷ ps) = number n ∷ arguments ps
arguments (hex n ∷ ps) = number n ∷ arguments ps
arguments (digits n ∷ ps) = number n ∷ arguments ps
arguments (character n ∷ ps) = number n ∷ arguments ps
arguments (inserted t ∷ ps) = text t ∷ arguments ps

-- No literal piece is a percent sign.
abbrev pub IsPlain : List Piece → Type 0
IsPlain [] = Unit {0}
IsPlain (literal c ∷ ps) = (c ≢ 37) × IsPlain ps
IsPlain (decimal n ∷ ps) = IsPlain ps
IsPlain (hex n ∷ ps) = IsPlain ps
IsPlain (digits n ∷ ps) = IsPlain ps
IsPlain (character n ∷ ps) = IsPlain ps
IsPlain (inserted t ∷ ps) = IsPlain ps

literal_first :
    (c : ℕ) (s : List ℕ) (args : List Arg)
    → c ≢ 37
    → format_to_string (c ∷ s) args ≡ written (c ∷ []) (format_to_string s args)
unfolding format_to_string
literal_first c [] args h = rw (ne→== c 37 h) refl
literal_first c (d ∷ s) args h = rw (ne→== c 37 h, format_to_string) refl

-- A text of literals, numbers, characters and strings is written as the concatenation of its pieces,
-- if the literals have no percent sign.
pub format_to_string-format_of :
    (ps : List Piece)
    → IsPlain ps
    → format_to_string (format_of ps) (arguments ps) ≡ some (true, bytes ps)
unfolding format_to_string convert
format_to_string-format_of [] h = refl
format_to_string-format_of (literal c ∷ ps) h =
    literal_first c (format_of ps) (arguments ps) h.0
    ∙ ap (written (c ∷ [])) (format_to_string-format_of ps h.1)
format_to_string-format_of (decimal n ∷ ps) h =
    ap (written (u_int_to_string n 10)) (format_to_string-format_of ps h)
format_to_string-format_of (hex n ∷ ps) h =
    ap (written (48 ∷ 120 ∷ u_int_to_string n 16)) (format_to_string-format_of ps h)
format_to_string-format_of (digits n ∷ ps) h =
    ap (written (u_int_to_string n 16)) (format_to_string-format_of ps h)
format_to_string-format_of (character n ∷ ps) h =
    ap (written ((n % 2 ^ 8) ∷ [])) (format_to_string-format_of ps h)
format_to_string-format_of (inserted t ∷ ps) h = ap (written t) (format_to_string-format_of ps h)

digit_count-le : (n num base : ℕ) → digit_count n num base ≤ n
unfolding digit_count
digit_count-le zero num base = omega arith
digit_count-le (suc n) num base = ground (arith, digit_count-le n (num / base) base)

length-write_digits :
    (n num base : ℕ) (out : List ℕ) → length (write_digits n num base out) ≡ n + length out
unfolding write_digits
length-write_digits zero num base out = omega arith
length-write_digits (suc n) num base out =
    length-write_digits n (num / base) base (digit_to_char (num % base) ∷ out) ∙ omega arith

length-u_int_to_string : (num base : ℕ) → length (u_int_to_string num base) ≤ 32
unfolding u_int_to_string
length-u_int_to_string num base =
    omega
      (arith, length-write_digits (digit_count 32 num base) num base [], digit_count-le 32 num base)

-- `%X` writes as many digits as are asked for after `0x`, if the number has no more; if it has more,
-- the unsigned difference wraps around, and 2 ^ 32 more bytes than were asked for are written.
pub length-padded_hex :
    (num min_length : ℕ)
    → min_length < 2 ^ 32
    → length (padded_hex num min_length)
      ≡ 2
        + (if leb (length (u_int_to_string num 16)) min_length
            then min_length
            else 2 ^ 32 + min_length)
unfolding padded_hex max_u32
length-padded_hex num min_length h =
    let out = u_int_to_string num 16 in
    let zeros = max_u32 0 (sub32 min_length (length out)) in
    let parts : length (replicate zeros 48 ++ out) ≡ zeros + length out =
      length-append (replicate zeros 48) out
      ∙ ap (λ n. n + length out) (length-replicate zeros 48) in
    let size = length-u_int_to_string num 16 in ground (arith, parts, size)
