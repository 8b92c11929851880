-- ===== src/Disk.antt =====
-- src/ata_pio.c: the transfers between a buffer and the drive. The drive is its bytes, and every
-- transfer succeeds: the status that `poll` reads, and the identification of the drive, are the
-- hardware's. A word on the data port is two bytes, the low one first.
pub mod Reads
pub mod Writes
mod Tests
use mariobr_os.Base.{
  ℕ, zero, suc, ◌+◌, ◌-◌, ◌*◌, ◌/◌, ◌%◌, ◌^◌, Option, none, some, put, ◌==◌, if◌then◌else◌, ltb,
  u32_mod,
}
use mariobr_os.Memory.{Bytes}

-- The first byte of a sector: the volume begins at sector 0x800, and a sector number has 28 bits.
abbrev pub address : ℕ → ℕ
address lba = 512 * ((lba + 0x800) % u32_mod % 2 ^ 28)

-- `(unsigned char)(sector_count-1)+1`: 0 stands for 256.
abbrev pub sectors : ℕ → ℕ
sectors sector_count = (sector_count + 255) % 2 ^ 8 + 1

-- The two loops of `read_lba` word by word, with the rounds that are left.
unfoldable pub read_words : ℕ → ℕ → ℕ → Bytes → Bytes → Bytes
read_words zero w start disk buffer = buffer
read_words (suc n) w start disk buffer =
    read_words n (w + 1) start disk
      (put (put buffer (2 * w) (disk (start + 2 * w))) (2 * w + 1) (disk (start + (2 * w + 1))))

unfoldable pub read_lba : ℕ → ℕ → Bytes → Bytes → Bytes
read_lba lba sector_count disk buffer =
    read_words (256 * sectors sector_count) 0 (address lba) disk buffer

unfoldable pub write_words : ℕ → ℕ → ℕ → Bytes → Bytes → Bytes
write_words zero w start buffer disk = disk
write_words (suc n) w start buffer disk =
    write_words n (w + 1) start buffer
      (put (put disk (start + 2 * w) (buffer (2 * w))) (start + (2 * w + 1)) (buffer (2 * w + 1)))

unfoldable pub write_lba : ℕ → ℕ → Bytes → Bytes → Bytes
write_lba lba sector_count buffer disk =
    write_words (256 * sectors sector_count) 0 (address lba) buffer disk

-- The loop of `read_pio` with the rounds that are left; `p` is `i + offset`, the byte of the sectors
-- that the next word begins with. Words before the offset are dropped.
unfoldable pub pio_words : ℕ → ℕ → ℕ → ℕ → Bytes → Bytes → Bytes
pio_words zero p start offset disk buffer = buffer
pio_words (suc n) p start offset disk buffer = pio_words n (p + 2) start offset disk (
    if ltb (p + 1) offset
    then buffer
    else if p + 1 == offset
    then put buffer 0 (disk (start + (p + 1)))
    else put (put buffer (p - offset) (disk (start + p))) (p - offset + 1) (disk (start + (p + 1))))

-- After the loop, an odd end takes the low byte of one more word.
unfoldable pub pio_transfer : ℕ → ℕ → ℕ → Bytes → Bytes → Bytes
pio_transfer start offset length disk buffer =
    let words = pio_words ((offset + length) / 2) 0 start offset disk buffer in
    if (length + offset) % 2 == 0
    then words
    else put words (length - 1) (disk (start + (offset + length - 1)))

-- `none` is the `throw` on too long a transfer. A length is below 2^31: the code compares it as a
-- signed number.
unfoldable pub read_pio : ℕ → ℕ → ℕ → Bytes → Bytes → Option Bytes
read_pio lba offset length disk buffer =
    if length == 0
    then some buffer
    else if ltb 256 ((1 + (offset % 512 + length - 1) / 512) % 2 ^ 16)
    then none
    else some (pio_transfer (address (lba + offset / 512)) (offset % 512) length disk buffer)
