-- ===== src/Disk/Tests.antt =====
-- Reads at odd offsets, and a sector that is written.
use mariobr_os.Base.{ℕ, ◌*◌, ◌%◌, ◌<◌, ◌≡◌, refl}
use mariobr_os.Memory.{Bytes}
use mariobr_os.Memory.Laws.{Apart}
use mariobr_os.Disk.{address, sectors, read_lba, write_lba, pio_words, pio_transfer}
use mariobr_os.Disk.Writes.{read_lba-write_lba}

abbrev drive : Bytes
drive j = j % 251

abbrev empty : Bytes
empty j = 0

-- Three bytes from an odd offset on, the last one of the second word of the sector among them.
odd_part : pio_transfer 0 3 3 drive empty 2 ≡ 5
unfolding pio_transfer pio_words
odd_part = refl

read_lba-write_lba_example :
    ((j : ℕ) → j < 512 * sectors 2 → read_lba 6 2 (write_lba 6 2 drive empty) empty j ≡ drive j)
    × ((lba' count' : ℕ)
        → Apart (address 6) (512 * sectors 2) (address lba') (512 * sectors count')
        → read_lba lba' count' (write_lba 6 2 drive empty) empty ≡ read_lba lba' count' empty empty)
read_lba-write_lba_example = read_lba-write_lba 6 2 drive empty empty
