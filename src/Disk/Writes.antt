-- ===== src/Disk/Writes.antt =====
-- What `write_lba` of src/ata_pio.c leaves on the drive, and what is read back.
use mariobr_os.Base.{
  ℕ, zero, suc, ◌+◌, ◌-◌, ◌*◌, ◌<◌, ◌≡◌, ◌∙◌, fun_ext, if◌then◌else◌, ltb, leb, ◌&&◌, arith, inl,
  inr,
}
use mariobr_os.Memory.{Bytes, copied}
use mariobr_os.Memory.Laws.{Apart}
use mariobr_os.Disk.{address, sectors, read_lba, write_words, write_lba}
use mariobr_os.Disk.Reads.{read_lba-copied}

write_words-at :
    (n w start : ℕ) (buffer disk : Bytes) (j : ℕ)
    → write_words n w start buffer disk j ≡ (
        if leb (start + 2 * w) j && ltb j (start + 2 * (w + n)) then buffer (j - start) else disk j)
unfolding write_words
write_words-at zero w start buffer disk j = ground arith
write_words-at (suc n) w start buffer disk j =
    write_words-at n (w + 1) start buffer _ j ∙ ground arith

-- The bytes of the drive after a buffer is written at `a`.
abbrev pub written : Bytes → ℕ → ℕ → Bytes → Bytes
written buffer a n disk j = if leb a j && ltb j (a + n) then buffer (j - a) else disk j

pub write_lba-written :
    (lba count : ℕ) (buffer disk : Bytes)
    → write_lba lba count buffer disk ≡ written buffer (address lba) (512 * sectors count) disk
unfolding write_lba
write_lba-written lba count buffer disk =
    fun_ext λ j. write_words-at (256 * sectors count) 0 (address lba) buffer disk j ∙ ground arith

outside :
    (buffer : Bytes) (a n : ℕ) (disk : Bytes) (b k : ℕ) (other : Bytes) (j : ℕ)
    → Apart a n b k
    → copied (written buffer a n disk) b k other j ≡ copied disk b k other j
outside buffer a n disk b k other j (inl h) = ground arith
outside buffer a n disk b k other j (inr h) = ground arith

-- What `write_lba` writes `read_lba` reads back, whatever the buffer held, and sectors that the write
-- does not reach read as before.
pub read_lba-write_lba :
    (lba count : ℕ) (buffer other disk : Bytes)
    → ((j : ℕ)
        → j < 512 * sectors count
        → read_lba lba count (write_lba lba count buffer disk) other j ≡ buffer j)
      × ((lba' count' : ℕ)
          → Apart (address lba) (512 * sectors count) (address lba') (512 * sectors count')
          → read_lba lba' count' (write_lba lba count buffer disk) other
            ≡ read_lba lba' count' disk other)
read_lba-write_lba lba count buffer other disk = (
  λ j h.
      rw
        (
          read_lba-copied lba count (write_lba lba count buffer disk) other,
          write_lba-written lba count buffer disk,
        )
        (ground arith),
  λ lba' count' h.
      rw
        (
          read_lba-copied lba' count' (write_lba lba count buffer disk) other,
          read_lba-copied lba' count' disk other,
          write_lba-written lba count buffer disk,
        )
        (fun_ext λ j.
          outside buffer (address lba) (512 * sectors count) disk (address lba')
            (512 * sectors count') other j h),
)
