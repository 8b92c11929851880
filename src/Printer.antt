-- ===== src/Printer.antt =====
-- src/printer.c and src/printer.h: the text framebuffer, 25 rows of 80 cells of two bytes. The
-- VGA controller's cursor position is a field of the state; a `pos_t` is a 16-bit number.
pub mod Cells
pub mod Writing
mod Tests
use mariobr_os.Base.{
  ℕ, zero, suc, ◌+◌, ◌-◌, ◌*◌, ◌/◌, ◌%◌, ◌^◌, Bool, true, false, List, [], ◌∷◌, put, ◌==◌,
  if◌then◌else◌, bit_and, bit_or, get_elem?, Option, none, some, ltb, ◌||◌,
}

abbrev screen_width : ℕ
screen_width = 80

abbrev screen_height : ℕ
screen_height = 25

abbrev tab_width : ℕ
tab_width = 4

abbrev add16 : ℕ → ℕ → ℕ
add16 a b = (a + b) % 2 ^ 16

abbrev sub16 : ℕ → ℕ → ℕ
sub16 a b = (a + 2 ^ 16 - b) % 2 ^ 16

-- The bytes from `FRAMEBUFFER_LOCATION` on, the cursor, and the two colors of the shell.
pub record Screen : Type 0 where
  pub framebuffer : ℕ → ℕ
  pub cursor : ℕ
  pub foreground : ℕ
  pub background : ℕ

-- The attribute byte of a cell.
unfoldable pub attribute : ℕ → ℕ → ℕ
attribute fg bg = bit_or (bit_and bg 15 * 2 ^ 4) (bit_and fg 15)

unfoldable pub put_char : ℕ → ℕ → ℕ → ℕ → Screen → Screen
put_char i c fg bg s = record s {
  framebuffer = put (put s.framebuffer (2 * i) c) (2 * i + 1) (attribute fg bg);
}

-- A position is sent and read as two bytes.
unfoldable pub set_cursor_pos : ℕ → Screen → Screen
set_cursor_pos pos s = record s { cursor = pos / 2 ^ 8 % 2 ^ 8 * 2 ^ 8 + pos % 2 ^ 8 }

unfoldable pub get_cursor_pos : Screen → ℕ
get_cursor_pos s = s.cursor / 2 ^ 8 % 2 ^ 8 * 2 ^ 8 + s.cursor % 2 ^ 8

-- The loop of `pad`, with the rounds that are left.
unfoldable pub pad_from : ℕ → ℕ → Screen → Screen
pad_from zero i s = s
pad_from (suc n) i s = pad_from n (i + 1) (put_char i 32 s.foreground s.background s)

unfoldable pub pad : ℕ → ℕ → Screen → Screen
pad cursor_pos to_pad s = pad_from (to_pad - cursor_pos) cursor_pos s

unfoldable pub clear : Screen → Screen
clear s = set_cursor_pos 0 (pad 0 (screen_width * screen_height) s)

-- `framebuffer[i] = framebuffer[i + d]` for the given number of rounds, from `i` upwards.
unfoldable pub shift_bytes : ℕ → ℕ → ℕ → (ℕ → ℕ) → ℕ → ℕ
shift_bytes zero i d fb = fb
shift_bytes (suc n) i d fb = shift_bytes n (i + 1) d (put fb i (fb (i + d)))

abbrev last_line : ℕ
last_line = screen_width * (screen_height - 1)

unfoldable pub scroll : Screen → Screen
scroll s =
    pad last_line (last_line + screen_width)
      (record s { framebuffer = shift_bytes (2 * last_line) 0 (2 * screen_width) s.framebuffer })

-- The switch of `write_char`: the cursor's new position, with the screen.
unfoldable pub write_cell : ℕ → ℕ → Screen → ℕ × Screen
write_cell c cursor_pos s =
    if c == 10
    then (let to_pad = screen_width * (cursor_pos / screen_width + 1) % 2 ^ 16 in
        (to_pad, pad cursor_pos to_pad s))
    else if c == 9
    then (let to_pad = tab_width * (cursor_pos / tab_width + 1) % 2 ^ 16 in
        (to_pad, pad cursor_pos to_pad s))
    else if c == 8
    then (let back = sub16 cursor_pos 1 in (back, put_char back 32 s.foreground s.background s))
    else if c == 127
    then (let bytes = 2 * screen_width * screen_height - 2 * cursor_pos in
        (cursor_pos, record s { framebuffer = shift_bytes bytes (2 * cursor_pos) 2 s.framebuffer }))
    else (add16 cursor_pos 1, put_char cursor_pos c s.foreground s.background s)

-- The end of `write_char`: the screen scrolls when the cursor has left it.
unfoldable pub settle : ℕ × Screen → Screen
settle (cursor_pos, s) =
    if cursor_pos == screen_width * screen_height
    then set_cursor_pos (sub16 cursor_pos screen_width) (scroll s)
    else set_cursor_pos cursor_pos s

unfoldable pub write_char : ℕ → Screen → Screen
write_char c s = if c == 0 then s else settle (write_cell c (get_cursor_pos s) s)

-- The code page of the screen for the second byte of a two-byte character.
abbrev pub utf8_c2 : List ℕ
utf8_c2 =
    173 ∷ 155 ∷ 156 ∷ 234 ∷ 157 ∷ 179 ∷ 21 ∷ 234 ∷ 234 ∷ 166 ∷ 234 ∷ 170 ∷ 174 ∷ 234 ∷ 234 ∷ 248
    ∷ 241 ∷ 253 ∷ 234 ∷ 39 ∷ 230 ∷ 20 ∷ 249 ∷ 44 ∷ 49 ∷ 167 ∷ 175 ∷ 172 ∷ 171 ∷ 234 ∷ 168 ∷ []

abbrev pub utf8_c3 : List ℕ
utf8_c3 =
    65 ∷ 65 ∷ 65 ∷ 65 ∷ 142 ∷ 143 ∷ 146 ∷ 128 ∷ 69 ∷ 144 ∷ 69 ∷ 69 ∷ 73 ∷ 73 ∷ 73 ∷ 73 ∷ 68 ∷ 165
    ∷ 79 ∷ 79 ∷ 79 ∷ 79 ∷ 153 ∷ 120 ∷ 79 ∷ 85 ∷ 85 ∷ 85 ∷ 154 ∷ 89 ∷ 48 ∷ 225 ∷ 133 ∷ 160 ∷ 131 ∷ 97
    ∷ 132 ∷ 134 ∷ 145 ∷ 135 ∷ 138 ∷ 130 ∷ 136 ∷ 137 ∷ 141 ∷ 161 ∷ 140 ∷ 139 ∷ 235 ∷ 164 ∷ 149 ∷ 162
    ∷ 147 ∷ 111 ∷ 148 ∷ 246 ∷ 237 ∷ 151 ∷ 163 ∷ 150 ∷ 129 ∷ 121 ∷ 0 ∷ 152 ∷ []

-- The character at `d - first` of a table, on unsigned numbers: `none` past its end.
unfoldable pub second_byte : List ℕ → ℕ → ℕ → Option ℕ
second_byte table first d = if ltb d first then none else get_elem? table (d - first)

-- `write_string` on the characters before the terminating zero, or before the end of the list.
-- The build makes `char` unsigned. `none` where a two-byte character is past its table or is cut.
unfoldable pub write_string : List ℕ → Screen → Option Screen
write_string [] s = some s
write_string (c ∷ []) s =
    if c == 0 then some s else if c == 0xc2 || c == 0xc3 then none else some (write_char c s)
write_string (c ∷ d ∷ string) s = if c == 0 then some s else elim (c == 0xc2) [
  | true ↦ elim (second_byte utf8_c2 0xa1 d) [
    | none ↦ none
    | some e ↦ write_string string (write_char e s)
  ]
  | false ↦ elim (c == 0xc3) [
    | true ↦ elim (second_byte utf8_c3 0x80 d) [
      | none ↦ none
      | some e ↦ write_string string (write_char e s)
    ]
    | false ↦ write_string (d ∷ string) (write_char c s)
  ]
]
