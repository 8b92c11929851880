-- ===== src/Filesystem/Inodes.antt =====
-- What `update_block`, `set_inode` and `update_inode` of src/filesystem.c do to the drive.
use native.Mathlib.Nat.{div-add-mod, mul_assoc}
use mariobr_os.Base.{
  ℕ, zero, suc, ◌+◌, ◌-◌, ◌*◌, ◌/◌, ◌%◌, ◌^◌, ◌≤◌, ◌<◌, ◌≡◌, ◌∙◌, ap, fun_ext, some, if◌then◌else◌,
  ltb, leb, ◌&&◌, arith, add32,
}
use mariobr_os.Memory.{Bytes, copied}
use mariobr_os.Disk.{address, read_lba, write_lba}
use mariobr_os.Disk.Reads.{read_lba-copied, read_pio-copied}
use mariobr_os.Disk.Writes.{written, write_lba-written}
use mariobr_os.Filesystem.Volume.{
  Fs, block, mul32, inode_table, group_of, index_of, update_from, update_block, set_inode,
  update_inode,
}

-- A block is a number of sectors that `read_lba` can read.
pub record IsVolume (s : Fs) : Type 0 where
  pub factor_pos : 0 < s.block_factor
  pub factor_small : s.block_factor ≤ 256
  pub sizes : s.block_size ≡ 512 * s.block_factor

-- The byte of the drive at an offset behind a sector of the volume.
abbrev pub position : ℕ → ℕ → ℕ
position lba ofs = 512 * (lba + 0x800) + ofs

update_from-at :
    (n pos ofs : ℕ) (buffer b : Bytes) (j : ℕ)
    → update_from n pos ofs buffer b j
      ≡ (if leb pos j && ltb j (pos + n) then buffer (j - ofs) else b j)
unfolding update_from
update_from-at zero pos ofs buffer b j = ground arith
update_from-at (suc n) pos ofs buffer b j = update_from-at n (pos + 1) ofs buffer _ j ∙ ground arith

-- A block that is read, changed in `len` bytes from `start` on and written back.
rewrite_block :
    (lba start len : ℕ) (buffer : Bytes) (s : Fs)
    → IsVolume s
    → start + len ≤ s.block_size
    → lba + 0x800 < 2 ^ 28
    → write_lba lba s.block_factor
        (update_from len start start buffer (read_lba lba s.block_factor s.disk s.std_buf))
        s.disk
      ≡ written buffer (position lba start) len s.disk
rewrite_block lba start len buffer s v h small =
    write_lba-written lba s.block_factor _ s.disk
    ∙ fun_ext λ j. ground (
      arith,
      v.sizes,
      v.factor_pos,
      v.factor_small,
      update_from-at len start start buffer (read_lba lba s.block_factor s.disk s.std_buf)
          (j - address lba),
      ap (λ f. f (j - address lba)) (read_lba-copied lba s.block_factor s.disk s.std_buf),
    )

-- An offset counted in blocks and the rest, or in bytes.
split_position :
    (a f q r ofs size : ℕ)
    → size ≡ 512 * f
    → size * q + r ≡ ofs
    → position (a + f * q) r ≡ position a ofs
split_position a f q r ofs size e d = omega (arith, mul_assoc 512 f q, ap (λ (t : ℕ). t * q) e)

-- What is written lies on the part of the drive that sector numbers reach.
abbrev pub Reachable : Fs → ℕ → ℕ → Type 0
Reachable s lba ofs = lba + s.block_factor * (ofs / s.block_size) + 0x800 < 2 ^ 28

pub update_block-written :
    (buffer : Bytes) (ofs len lba : ℕ) (s : Fs)
    → IsVolume s
    → ofs % s.block_size + len ≤ s.block_size
    → Reachable s lba ofs
    → (update_block buffer ofs len lba s).disk ≡ written buffer (position lba ofs) len s.disk
unfolding update_block
update_block-written buffer ofs len lba s v h small =
    let q = ofs / s.block_size in
    let e : add32 lba (mul32 s.block_factor q) ≡ lba + s.block_factor * q = omega arith in
    rw e (
      rewrite_block (lba + s.block_factor * q) (ofs % s.block_size) len buffer s v h small
      ∙ ap (λ p. written buffer p len s.disk)
          (split_position lba s.block_factor q (ofs % s.block_size) ofs s.block_size v.sizes
            (div-add-mod ofs s.block_size)))

-- The address of an inode on the drive, and the inode read from there.
abbrev pub table_lba : ℕ → Fs → ℕ
table_lba inode s = block (inode_table s (group_of inode s)) s

abbrev pub table_ofs : ℕ → Fs → ℕ
table_ofs inode s = mul32 (index_of inode s) 128

pub record InTable (inode : ℕ) (s : Fs) : Type 0 where
  pub volume : IsVolume s
  pub fits : table_ofs inode s % s.block_size + 128 ≤ s.block_size
  pub reachable : table_lba inode s + table_ofs inode s + 0x800 < 2 ^ 28

pub set_inode-copied :
    (inode : ℕ) (s : Fs)
    → InTable inode s
    → set_inode inode s
      ≡ some (record s {
        std_inode =
            copied s.disk (position (table_lba inode s) (table_ofs inode s)) 128 s.std_inode;
      })
unfolding set_inode
set_inode-copied inode s t =
    rw
      (read_pio-copied (table_lba inode s) (table_ofs inode s) 128 s.disk s.std_inode (omega arith))
      (ap (λ p. some (record s { std_inode = copied s.disk p 128 s.std_inode }))
        (omega (arith, t.reachable)))

blocks_below : (ofs : ℕ) (s : Fs) → IsVolume s → s.block_factor * (ofs / s.block_size) ≤ ofs
blocks_below ofs s v =
    let q = ofs / s.block_size in
    omega (
      arith,
      mul_assoc 512 s.block_factor q,
      ap (λ (t : ℕ). t * q) v.sizes,
      div-add-mod ofs s.block_size,
    )

pub update_inode-written :
    (inode : ℕ) (s : Fs)
    → InTable inode s
    → (update_inode inode s).disk
      ≡ written s.std_inode (position (table_lba inode s) (table_ofs inode s)) 128 s.disk
unfolding update_inode
update_inode-written inode s t =
    update_block-written s.std_inode (table_ofs inode s) 128 (table_lba inode s) s t.volume t.fits
      (omega (arith, t.reachable, blocks_below (table_ofs inode s) s t.volume))

stored_inode :
    (inode : ℕ) (s : Fs) (j : ℕ)
    → InTable inode s
    → j < 128
    → (update_inode inode s).disk (position (table_lba inode s) (table_ofs inode s) + j)
      ≡ s.std_inode j
stored_inode inode s j t h = rw (update_inode-written inode s t) (ground arith)

-- `set_inode` after `update_inode` of the same inode gives all its 128 bytes back, whatever
-- `std_inode` held in between, if the inode lies in a block of the volume.
pub set_inode-update_inode :
    (inode : ℕ) (s : Fs) (other : Bytes)
    → InTable inode s
    → (s2 : Fs) × (set_inode inode (record (update_inode inode s) { std_inode = other }) ≡ some s2)
      × ((j : ℕ) → j < 128 → s2.std_inode j ≡ s.std_inode j)
unfolding update_inode update_block
set_inode-update_inode inode s other t =
    let s1 : Fs = record (update_inode inode s) { std_inode = other } in
    (
      _,
      set_inode-copied inode s1 (record {
        volume = record {
          factor_pos = t.volume.factor_pos;
          factor_small = t.volume.factor_small;
          sizes = t.volume.sizes;
        };
        fits = t.fits;
        reachable = t.reachable;
      }),
      λ j h. ground (arith, stored_inode inode s j t h),
    )
