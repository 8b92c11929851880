-- ===== src/Text/Tests.antt =====
-- Concrete strings and numerals.
use mariobr_os.Text.Format.{
  Piece, literal, decimal, hex, inserted, character, number, text, bytes, IsPlain, format_to_string,
  padded_hex, format_to_string-format_of, length-padded_hex,
}
use mariobr_os.Base.{
  false, ℕ, ◌≡◌, refl, true, some, List, [], ◌∷◌, arith, ◌^◌, ◌-◌, ◌+◌, length, leb, if◌then◌else◌,
}
use mariobr_os.Text.{digit_to_char, digit_count, write_digits, u_int_to_string, int_to_string}
use mariobr_os.Text.{str_split, split_from}
use mariobr_os.Text.Splitting.{join, kept, AllHaveNot, str_split-join}
use mariobr_os.Text.Signs.{read_back, int_to_string-value}

-- Minus 1066 in base 10.
int_to_string_minus : int_to_string (2 ^ 32 - 1066) 10 ≡ some (45 ∷ 49 ∷ 48 ∷ 54 ∷ 54 ∷ [])
unfolding int_to_string u_int_to_string digit_count write_digits digit_to_char
int_to_string_minus = refl

hexadecimal : u_int_to_string 48879 16 ≡ 66 ∷ 69 ∷ 69 ∷ 70 ∷ []
unfolding u_int_to_string digit_count write_digits digit_to_char
hexadecimal = refl

int_to_string-value_example : read_back 10 (int_to_string 4294966230 10) ≡ some 4294966230
int_to_string-value_example =
    int_to_string-value 4294966230 10 (omega arith) (omega arith) (omega arith) (omega arith)

abbrev cat : List ℕ
cat = 99 ∷ 97 ∷ 116 ∷ []

abbrev car : List ℕ
car = 99 ∷ 97 ∷ 114 ∷ []

-- "/a//b"
abbrev path : List ℕ
path = 47 ∷ 97 ∷ 47 ∷ 47 ∷ 98 ∷ []

words_of_path : str_split path 47 false ≡ some ((97 ∷ []) ∷ (98 ∷ []) ∷ [])
unfolding str_split split_from
words_of_path = refl

str_split-join_example :
    (ws : List (List ℕ)) × (str_split path 47 true ≡ some ws)
    × (join 47 ws ≡ path)
    × AllHaveNot 47 ws
    × (str_split path 47 false ≡ some (kept false ws))
str_split-join_example = str_split-join path 47 (omega arith)

abbrev message : List Piece
message =
    literal 97 ∷ decimal 42 ∷ literal 32 ∷ hex 255 ∷ inserted (98 ∷ 99 ∷ []) ∷ character 33 ∷ []

message-IsPlain : IsPlain message
message-IsPlain = (λ e. absurd (omega (arith, e)), (λ e. absurd (omega (arith, e)), tt))

format_to_string-format_of_example :
    format_to_string
      (97 ∷ 37 ∷ 117 ∷ 32 ∷ 37 ∷ 120 ∷ 37 ∷ 115 ∷ 37 ∷ 99 ∷ [])
      (number 42 ∷ number 255 ∷ text (98 ∷ 99 ∷ []) ∷ number 33 ∷ [])
    ≡ some (true, bytes message)
format_to_string-format_of_example = format_to_string-format_of message message-IsPlain

length-padded_hex_example :
    length (padded_hex 0x1234_5678 4)
    ≡ 2 + (if leb (length (u_int_to_string 0x1234_5678 16)) 4 then 4 else 2 ^ 32 + 4)
length-padded_hex_example = length-padded_hex 0x1234_5678 4 (omega arith)
