-- ===== src/Disk/Reads.antt =====
-- What the reads of src/ata_pio.c leave in the buffer.
use mariobr_os.Base.{
  ℕ, zero, suc, ◌+◌, ◌-◌, ◌*◌, ◌/◌, ◌%◌, ◌^◌, ◌≤◌, ◌<◌, ◌≡◌, ◌∙◌, ap, fun_ext, some, ◌==◌,
  if◌then◌else◌, ltb, leb, ◌&&◌, arith, Bool-cases, ==→eq, ==→ne, inl, inr, false,
}
use mariobr_os.Memory.{Bytes, copied}
use mariobr_os.Disk.{address, sectors, read_words, read_lba, pio_words, pio_transfer, read_pio}

read_words-at :
    (n w start : ℕ) (disk buffer : Bytes) (j : ℕ)
    → read_words n w start disk buffer j
      ≡ (if leb (2 * w) j && ltb j (2 * (w + n)) then disk (start + j) else buffer j)
unfolding read_words
read_words-at zero w start disk buffer j = ground arith
read_words-at (suc n) w start disk buffer j = read_words-at n (w + 1) start disk _ j ∙ ground arith

-- `read_lba` fills the buffer with whole sectors and changes nothing behind them.
pub read_lba-copied :
    (lba count : ℕ) (disk buffer : Bytes)
    → read_lba lba count disk buffer ≡ copied disk (address lba) (512 * sectors count) buffer
unfolding read_lba
read_lba-copied lba count disk buffer =
    fun_ext λ j. read_words-at (256 * sectors count) 0 (address lba) disk buffer j ∙ ground arith

pio_words-at :
    (n p start offset : ℕ) (disk buffer : Bytes) (j : ℕ)
    → pio_words n p start offset disk buffer j ≡ (
        if leb p (j + offset) && ltb (j + offset) (p + 2 * n)
        then disk (start + (j + offset))
        else buffer j)
unfolding pio_words
pio_words-at zero p start offset disk buffer j = ground arith
pio_words-at (suc n) p start offset disk buffer j =
    pio_words-at n (p + 2) start offset disk _ j ∙ ground arith

pio_transfer-copied :
    (start offset length : ℕ) (disk buffer : Bytes)
    → 0 < length
    → pio_transfer start offset length disk buffer ≡ copied disk (start + offset) length buffer
unfolding pio_transfer
pio_transfer-copied start offset length disk buffer h =
    fun_ext λ j. ground (arith, pio_words-at ((offset + length) / 2) 0 start offset disk buffer j)

-- `read_pio` copies the bytes from the offset on, at odd offsets and lengths too, and changes
-- nothing behind them, if they reach no further than 256 sectors.
pub read_pio-copied :
    (lba offset length : ℕ) (disk buffer : Bytes)
    → offset % 512 + length ≤ 512 * 256
    → read_pio lba offset length disk buffer
      ≡ some (copied disk (address (lba + offset / 512) + offset % 512) length buffer)
unfolding read_pio
read_pio-copied lba offset length disk buffer h = elim (Bool-cases (length == 0)) [
  | inl e ↦ rw (e, ==→eq length 0 e) (ap some (fun_ext λ j. ground arith))
  | inr e ↦
      rw (e, short (offset % 512 + length) h (omega (arith, ==→ne length 0 e)))
        (ap some (
          pio_transfer-copied (address (lba + offset / 512)) (offset % 512) length disk buffer
            (omega (arith, ==→ne length 0 e))))
]
  where
    short : (n : ℕ) → n ≤ 512 * 256 → 0 < n → ltb 256 ((1 + (n - 1) / 512) % 2 ^ 16) ≡ false
    short n h p = ground arith
