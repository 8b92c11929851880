-- ===== src/Files/Offsets.antt =====
-- Where `lseek` and `read` leave the position of a descriptor.
use mariobr_os.Base.{
  ℕ, ◌+◌, ◌-◌, ◌^◌, ◌≤◌, ◌<◌, ◌≡◌, ◌∙◌, refl, ap, min, true, false, List, if◌then◌else◌, leb,
  bit_and, is_true, add32, length, arith, eq→==,
}
use mariobr_os.Files.{
  FileSystem, Entry, Fdt, entry, set_entry, is_valid, read_length, read, is_negative, seek_set,
  seek_cur, seek_end, seek_to, lseek,
}

-- The position that is written is the one that the descriptor has.
pub entry-set_entry : {D : Type 0} (s : Fdt D) (f : ℕ) (e : Entry) → entry (set_entry s f e) f ≡ e
entry-set_entry s f e = rw (eq→== (s.index f) (s.index f) refl) refl

-- The offset that is asked for, within the file.
abbrev pub clamped : ℕ → ℕ → ℕ → ℕ
clamped size base offset =
    if is_negative offset then base - (2 ^ 32 - offset) else min (base + offset) size

module _ (e : Entry) (offset : ℕ) (within : e.pos ≤ e.size) (small : e.size < 2 ^ 31)
    (word : offset < 2 ^ 32) where
  seek_set-clamped : seek_set e offset ≡ clamped e.size 0 offset
  unfolding seek_set
  seek_set-clamped = ground arith

  seek_cur-clamped : seek_cur e offset ≡ clamped e.size e.pos offset
  unfolding seek_cur
  seek_cur-clamped = ground arith

module _ {D : Type 0} (s : Fdt D) (f offset : ℕ) (within : (entry s f).pos ≤ (entry s f).size)
    (small : (entry s f).size < 2 ^ 31) (word : offset < 2 ^ 32) where
  -- SEEK_SET and SEEK_CUR move a position that is within a file of less than 2 GB to the start or
  -- from where it is by the signed offset, but not out of the file; `lseek` returns the position
  -- that the descriptor then has.
  pub lseek-clamped :
      ((lseek f offset 1 s).0 ≡ clamped (entry s f).size 0 offset)
      × ((lseek f offset 2 s).0 ≡ clamped (entry s f).size (entry s f).pos offset)
      × ((entry (lseek f offset 1 s).1 f).pos ≡ (lseek f offset 1 s).0)
      × ((entry (lseek f offset 2 s).1 f).pos ≡ (lseek f offset 2 s).0)
  unfolding lseek seek_to
  lseek-clamped = (
    seek_set-clamped (entry s f) offset within small word,
    seek_cur-clamped (entry s f) offset within small word,
    ap (λ (e : Entry). e.pos) (entry-set_entry s f _),
    ap (λ (e : Entry). e.pos) (entry-set_entry s f _),
  )

  -- SEEK_END counts back from the current position, not from the end: an offset that the file has
  -- room for, but that is greater than the position, puts the descriptor past the end of the file.
  pub lseek-past_end :
      (entry s f).pos < offset
      → offset ≤ (entry s f).size
      → (entry s f).size < (lseek f offset 4 s).0
  unfolding lseek seek_to seek_end
  lseek-past_end h k = ground arith

read_length-le :
    (e : Entry) (len : ℕ)
    → e.pos < e.size
    → e.pos + len < 2 ^ 32
    → (read_length e len ≤ len) × (e.pos + read_length e len ≤ e.size)
unfolding read_length
read_length-le e len h k = ground arith

module _ {D : Type 0} (fs : FileSystem D) (s : Fdt D) (f len : ℕ)
    (law : (inode pos n : ℕ) (d : D) → length (fs.read_inode_data inode pos n d) ≤ n) where
  got : List ℕ
  got = fs.read_inode_data (entry s f).inode (entry s f).pos (read_length (entry s f) len) s.disk

  read-got :
      is_valid s f ≡ true
      → is_true (bit_and (entry s f).mode 1) ≡ true
      → (entry s f).pos < (entry s f).size
      → read fs f len s ≡ (
        length got,
        got,
        set_entry s f (record (entry s f) { pos = add32 (entry s f).pos (length got) }),
      )
  unfolding read got
  read-got valid mode within =
      let more : leb (entry s f).size (entry s f).pos ≡ false = ground arith in
      rw (valid, mode, more) refl

  -- On a valid descriptor that is open for reading, within the file, `read` returns the number of
  -- the bytes it read, which is at most what was asked for; the position moves on by as many, and
  -- stays within the file. The file system never reads more than it is asked for.
  pub read-advances :
      is_valid s f ≡ true
      → is_true (bit_and (entry s f).mode 1) ≡ true
      → (entry s f).pos < (entry s f).size
      → (entry s f).size < 2 ^ 32
      → (entry s f).pos + len < 2 ^ 32
      → let (done, bytes, t) = read fs f len s in
        (done ≡ length bytes)
        × (done ≤ len)
        × ((entry t f).pos ≡ (entry s f).pos + done)
        × ((entry t f).pos ≤ (entry s f).size)
  unfolding got
  read-advances valid mode within word fits =
      let (a, b) = read_length-le (entry s f) len within fits in
      let c : length got ≤ read_length (entry s f) len = law _ _ _ _ in
      let p : (entry
            (set_entry s f (record (entry s f) { pos = add32 (entry s f).pos (length got) })) f).pos
          ≡ add32 (entry s f).pos (length got) =
        ap (λ (e : Entry). e.pos) (entry-set_entry s f _) in
      rw (read-got valid mode within) (refl, omega arith, p ∙ omega arith, omega (arith, p))
