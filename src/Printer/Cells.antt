-- ===== src/Printer/Cells.antt =====
-- What the loops over the framebuffer leave in each byte.
use mariobr_os.Base.{
  ℕ, zero, suc, ◌+◌, ◌-◌, ◌*◌, ◌%◌, ◌≤◌, ◌<◌, ◌≡◌, ◌∙◌, refl, Bool, ◌&&◌, put, ◌==◌, if◌then◌else◌,
  ltb, leb, arith,
}
use mariobr_os.Printer.{
  Screen, attribute, put_char, pad_from, pad, shift_bytes, scroll, screen_width, screen_height,
  last_line,
}

-- A byte of an empty cell.
abbrev pub blank : Screen → ℕ → ℕ
blank s j = if j % 2 == 0 then 32 else attribute s.foreground s.background

abbrev pub between : ℕ → ℕ → ℕ → Bool
between lo hi j = leb lo j && ltb j hi

pad_from-at :
    (n i : ℕ) (s : Screen) (j : ℕ)
    → (pad_from n i s).framebuffer j
      ≡ (if between (2 * i) (2 * (i + n)) j then blank s j else s.framebuffer j)
unfolding pad_from put_char
pad_from-at zero i s j = ground arith
pad_from-at (suc n) i s j =
    pad_from-at n (i + 1) (put_char i 32 s.foreground s.background s) j ∙ ground arith

pub pad_from-rest :
    (n i : ℕ) (s : Screen)
    → ((pad_from n i s).cursor ≡ s.cursor)
      × ((pad_from n i s).foreground ≡ s.foreground)
      × ((pad_from n i s).background ≡ s.background)
unfolding pad_from put_char
pad_from-rest zero i s = (refl, refl, refl)
pad_from-rest (suc n) i s = pad_from-rest n (i + 1) (put_char i 32 s.foreground s.background s)

pub pad-at :
    (a b : ℕ) (s : Screen) (j : ℕ)
    → a ≤ b
    → (pad a b s).framebuffer j ≡ (if between (2 * a) (2 * b) j then blank s j else s.framebuffer j)
unfolding pad
pad-at a b s j h = pad_from-at (b - a) a s j ∙ ground arith

pub shift_bytes-at :
    (n i d : ℕ) (fb : ℕ → ℕ) (j : ℕ)
    → 0 < d
    → shift_bytes n i d fb j ≡ (if between i (i + n) j then fb (j + d) else fb j)
unfolding shift_bytes
shift_bytes-at zero i d fb j h = ground arith
shift_bytes-at (suc n) i d fb j h =
    shift_bytes-at n (i + 1) d (put fb i (fb (i + d))) j h ∙ ground arith

-- `scroll` moves every row up by one, blanks the last one, and touches no byte past the screen.
pub scroll-at :
    (s : Screen) (j : ℕ)
    → (scroll s).framebuffer j ≡ (
        if ltb j (2 * last_line)
        then s.framebuffer (j + 2 * screen_width)
        else if ltb j (2 * screen_width * screen_height)
        then blank s j
        else s.framebuffer j)
unfolding scroll
scroll-at s j =
    pad-at last_line (last_line + screen_width)
      (record s { framebuffer = shift_bytes (2 * last_line) 0 (2 * screen_width) s.framebuffer }) j
      (omega arith)
    ∙ ground (arith, shift_bytes-at (2 * last_line) 0 (2 * screen_width) s.framebuffer j)
