-- ===== src/Printer/Tests.antt =====
-- Concrete runs of the printer.
use mariobr_os.Base.{ℕ, ◌+◌, ◌*◌, ◌≡◌, refl, if◌then◌else◌, ltb, arith}
use mariobr_os.Printer.{Screen, write_char, screen_width, last_line}
use mariobr_os.Printer.Cells.{blank}
use mariobr_os.Printer.Writing.{cells, typed, write_char-within, write_char-scrolls}

-- A screen whose byte `j` is `j`, with the cursor at the given cell.
abbrev screen_at : ℕ → Screen
screen_at p = record { framebuffer = λ j. j; cursor = p; foreground = 15; background = 0 }

write_char-within_example : (write_char 127 (screen_at 7)).framebuffer 4000 ≡ 4000
write_char-within_example =
    write_char-within 127 (screen_at 7) 4000 (omega arith) (λ e. omega arith) (omega arith)

write_char-scrolls_example :
    ((write_char 97 (screen_at 1999)).cursor ≡ last_line)
    × ((j : ℕ)
        → (write_char 97 (screen_at 1999)).framebuffer j ≡ (
            if ltb j (2 * last_line)
            then typed 97 (screen_at 1999) (j + 2 * screen_width)
            else if ltb j (2 * cells)
            then blank (screen_at 1999) j
            else j))
write_char-scrolls_example = write_char-scrolls 97 (screen_at 1999) refl refl
