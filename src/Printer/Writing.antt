-- ===== src/Printer/Writing.antt =====
-- What `write_char` does to the cursor and the screen.
use mariobr_os.Base.{
  ℕ, ◌+◌, ◌-◌, ◌*◌, ◌/◌, ◌%◌, ◌^◌, ◌≤◌, ◌<◌, ◌≡◌, ◌∙◌, refl, Bool, true, ◌==◌, if◌then◌else◌, ltb,
  arith, Bool-cases, inl, inr, ne→==, eq→==, ==→ne, ==→eq, not, ◌||◌,
}
use mariobr_os.Printer.{
  Screen, attribute, put_char, set_cursor_pos, get_cursor_pos, clear, screen_width, screen_height,
  tab_width, last_line, write_cell, settle, write_char, sub16,
}
use mariobr_os.Printer.Cells.{blank, pad-at, shift_bytes-at, scroll-at}

abbrev pub cells : ℕ
cells = screen_width * screen_height

-- A position of 16 bits comes back from the two bytes it is sent as.
pub get_cursor_pos-set_cursor_pos :
    (pos : ℕ) (s : Screen) → pos < 2 ^ 16 → get_cursor_pos (set_cursor_pos pos s) ≡ pos
unfolding get_cursor_pos set_cursor_pos
get_cursor_pos-set_cursor_pos pos s h = omega arith

-- `clear` blanks every cell of the screen, touches no byte past it, and homes the cursor.
pub clear-at :
    (s : Screen)
    → ((clear s).cursor ≡ 0)
      × ((j : ℕ)
          → (clear s).framebuffer j ≡ (if ltb j (2 * cells) then blank s j else s.framebuffer j))
unfolding clear set_cursor_pos
clear-at s = (refl, λ j. pad-at 0 cells s j (omega arith) ∙ ground arith)

-- The cursor stays on the screen.
cell_cursor : (c p : ℕ) (s : Screen) → p < cells → (c ≡ 8 → 0 < p) → (write_cell c p s).0 ≤ cells
unfolding write_cell
cell_cursor c p s h back = ground arith

settle-cursor : (p : ℕ) (s : Screen) → p ≤ cells → (settle (p, s)).cursor < cells
unfolding settle set_cursor_pos
settle-cursor p s h = elim (Bool-cases (p == cells)) [
  | inl e ↦ rw e (omega (arith, ==→eq p cells e))
  | inr e ↦ rw e (omega (arith, ==→ne p cells e))
]

-- `write_char` keeps the cursor on the screen, unless it is a backspace at the first cell.
pub write_char-cursor :
    (c : ℕ) (s : Screen)
    → s.cursor < cells
    → (c ≡ 8 → 0 < s.cursor)
    → (write_char c s).cursor < cells
unfolding write_char get_cursor_pos
write_char-cursor c s h back = elim (Bool-cases (c == 0)) [
  | inl e ↦ rw e h
  | inr e ↦ rw e (
      settle-cursor (write_cell c (get_cursor_pos s) s).0 (write_cell c (get_cursor_pos s) s).1
        (cell_cursor c (get_cursor_pos s) s (omega arith) (λ e. omega (arith, back e))))
]

-- No byte past the screen changes.
cell_within :
    (c p : ℕ) (s : Screen) (j : ℕ)
    → p < cells
    → (c ≡ 8 → 0 < p)
    → 2 * cells ≤ j
    → (write_cell c p s).1.framebuffer j ≡ s.framebuffer j
unfolding write_cell put_char
cell_within c p s j h back k = ground (
  arith,
  pad-at p (screen_width * (p / screen_width + 1) % 2 ^ 16) s j,
  pad-at p (tab_width * (p / tab_width + 1) % 2 ^ 16) s j,
  shift_bytes-at (2 * screen_width * screen_height - 2 * p) (2 * p) 2 s.framebuffer j,
)

settle-within :
    (p : ℕ) (s : Screen) (j : ℕ) → 2 * cells ≤ j → (settle (p, s)).framebuffer j ≡ s.framebuffer j
unfolding settle set_cursor_pos
settle-within p s j h = ground (arith, scroll-at s j)

-- With the cursor on the screen, `write_char` changes no byte past the screen, unless it is given a
-- backspace and the cursor is at the first cell.
pub write_char-within :
    (c : ℕ) (s : Screen) (j : ℕ)
    → s.cursor < cells
    → (c ≡ 8 → 0 < s.cursor)
    → 2 * cells ≤ j
    → (write_char c s).framebuffer j ≡ s.framebuffer j
unfolding write_char get_cursor_pos
write_char-within c s j h back k = elim (Bool-cases (c == 0)) [
  | inl e ↦ rw e refl
  | inr e ↦ rw e (
      settle-within (write_cell c (get_cursor_pos s) s).0 (write_cell c (get_cursor_pos s) s).1 j k
      ∙ cell_within c (get_cursor_pos s) s j (omega arith) (λ e. omega (arith, back e)) k)
]

-- Characters that `write_char` shows in a cell.
abbrev pub printable : ℕ → Bool
printable c = not (c == 0 || c == 8 || c == 9 || c == 10 || c == 127)

-- The byte `j` once `c` stands in the cell of the cursor.
abbrev pub typed : ℕ → Screen → ℕ → ℕ
typed c s j =
    if j == 2 * s.cursor
    then c
    else if j == 2 * s.cursor + 1
    then attribute s.foreground s.background
    else s.framebuffer j

cell_printable :
    (c : ℕ) (s : Screen)
    → s.cursor < cells
    → printable c ≡ true
    → write_char c s ≡ settle (s.cursor + 1, put_char s.cursor c s.foreground s.background s)
unfolding write_char write_cell get_cursor_pos
cell_printable c s h v = let here : get_cursor_pos s ≡ s.cursor = omega arith in ground arith

-- A printable character before the last cell goes to the cell of the cursor with the current
-- colors, the cursor moves on by one cell, and no other byte changes.
pub write_char-types :
    (c : ℕ) (s : Screen)
    → s.cursor + 1 < cells
    → printable c ≡ true
    → ((write_char c s).cursor ≡ s.cursor + 1)
      × ((j : ℕ) → (write_char c s).framebuffer j ≡ typed c s j)
unfolding settle set_cursor_pos put_char
write_char-types c s h v =
    rw (cell_printable c s (omega arith) v, ne→== (s.cursor + 1) cells (omega arith))
      (omega arith, λ j. ground arith)

-- A printable character in the last cell scrolls: every row moves up by one with it, the last row
-- is blank, and the cursor goes to its start.
pub write_char-scrolls :
    (c : ℕ) (s : Screen)
    → s.cursor + 1 ≡ cells
    → printable c ≡ true
    → ((write_char c s).cursor ≡ last_line)
      × ((j : ℕ)
          → (write_char c s).framebuffer j ≡ (
              if ltb j (2 * last_line)
              then typed c s (j + 2 * screen_width)
              else if ltb j (2 * cells)
              then blank s j
              else s.framebuffer j))
unfolding settle set_cursor_pos put_char
write_char-scrolls c s h v =
    rw (cell_printable c s (omega arith) v, eq→== (s.cursor + 1) cells h)
      (
        omega arith,
        λ j. scroll-at (put_char s.cursor c s.foreground s.background s) j ∙ ground arith,
      )

-- A backspace at the first cell leaves the screen: the position wraps around to 65535, a byte far
-- past the screen is overwritten, and the cursor stays there.
pub write_char-underflow :
    (s : Screen)
    → s.cursor ≡ 0
    → ((write_char 8 s).cursor ≡ 65535) × ((write_char 8 s).framebuffer (2 * 65535) ≡ 32)
unfolding write_char write_cell get_cursor_pos settle set_cursor_pos put_char
write_char-underflow s h =
    let back : sub16 (get_cursor_pos s) 1 ≡ 65535 = omega arith in rw back (refl, refl)
