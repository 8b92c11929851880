-- ===== src/Filesystem/RoundTrip.antt =====
-- `write_inode_data` and `read_inode_data` of src/filesystem.c on the direct blocks of a file.
use native.Mathlib.Nat.{mod-lt, mod-eq_of_lt, div-eq_of_lt}
use mariobr_os.Base.{
  ◌>>=◌, ℕ, ◌+◌, ◌*◌, ◌/◌, ◌%◌, ◌^◌, ◌≤◌, ◌<◌, ◌≡◌, ◌∙◌, ◌⊎◌, inl, inr, ap, fun_ext, some, ltb,
  arith, lt→ltb, Bool-cases, ltb→lt,
}
use mariobr_os.Memory.{Bytes, copied}
use mariobr_os.Disk.{read_pio}
use mariobr_os.Disk.Reads.{read_pio-copied}
use mariobr_os.Disk.Writes.{written}
use mariobr_os.Filesystem.Volume.{Fs, block, dbp, set_inode, update_block}
use mariobr_os.Filesystem.Contents.{data_block, width, read_inode_data, write_inode_data}
use mariobr_os.Filesystem.Inodes.{
  IsVolume, InTable, position, table_lba, table_ofs, set_inode-copied, update_block-written,
}

-- Part of a block is read from its place on the drive.
read_part :
    (lba ofs len : ℕ) (disk other : Bytes) (s : Fs)
    → IsVolume s
    → ofs + len ≤ s.block_size
    → lba + s.block_factor + 0x800 < 2 ^ 28
    → read_pio lba ofs len disk other ≡ some (copied disk (position lba ofs) len other)
read_part lba ofs len disk other s v h small =
    read_pio-copied lba ofs len disk other (omega (arith, v.sizes, v.factor_small))
    ∙ ap (λ p. some (copied disk p len other)) (omega (arith, v.factor_pos, v.sizes))

data_block-direct : (n : ℕ) (s : Fs) → n < 12 → data_block n s ≡ some (dbp s.std_inode n, s)
unfolding data_block
data_block-direct n s h = rw (lt→ltb n 12 h)

written-apart :
    (buffer : Bytes) (p w : ℕ) (disk : Bytes) (a j : ℕ)
    → j < 128
    → (a + 128 ≤ p) ⊎ (p + w ≤ a)
    → written buffer p w disk (a + j) ≡ disk (a + j)
written-apart buffer p w disk a j h (inl k) = ground arith
written-apart buffer p w disk a j h (inr k) = ground arith

written-at :
    (buffer : Bytes) (p w : ℕ) (disk : Bytes) (j : ℕ)
    → j < w
    → written buffer p w disk (p + j) ≡ buffer j
written-at buffer p w disk j h = ground arith

copied_at : (d : Bytes) (a w : ℕ) (other : Bytes) (j : ℕ) → j < w → copied d a w other j ≡ d (a + j)
copied_at d a w other j h = rw (lt→ltb j w h)

copied_again :
    (after before m : Bytes) (a j : ℕ)
    → (j < 128 → after (a + j) ≡ before (a + j))
    → copied after a 128 (copied before a 128 m) j ≡ copied before a 128 m j
copied_again after before m a j h = elim (Bool-cases (ltb j 128)) [
  | inl e ↦ rw e (h (ltb→lt j 128 e))
  | inr e ↦ rw e
]

IsVolume-inode : (s : Fs) (m : Bytes) → IsVolume s → IsVolume (record s { std_inode = m })
IsVolume-inode s m v = record {
  factor_pos = v.factor_pos;
  factor_small = v.factor_small;
  sizes = v.sizes;
}

-- The place of an inode depends on the table and the sizes only.
InTable-disk :
    (inode : ℕ) (s : Fs) (d b m : Bytes)
    → InTable inode s
    → InTable inode (record s { disk = d; std_buf = b; std_inode = m })
InTable-disk inode s d b m t = record {
  volume = record {
    factor_pos = t.volume.factor_pos;
    factor_small = t.volume.factor_small;
    sizes = t.volume.sizes;
  };
  fits = t.fits;
  reachable = t.reachable;
}

module _ (inode offset length : ℕ) (buffer other : Bytes) (s : Fs) (table : InTable inode s) where
  abbrev at : ℕ
  at = position (table_lba inode s) (table_ofs inode s)

  -- The inode on the drive, with the block that the offset lies in.
  abbrev inode_bytes : Bytes
  inode_bytes = copied s.disk at 128 s.std_inode

  abbrev data_lba : ℕ
  data_lba = block (dbp inode_bytes (offset / s.block_size)) s

  abbrev ofs : ℕ
  ofs = offset % s.block_size

  module _ (direct : offset / s.block_size < 12)
      (reachable : data_lba + s.block_factor + 0x800 < 2 ^ 28)
      (apart : (at + 128 ≤ position data_lba 0) ⊎ (position data_lba s.block_size ≤ at)) where
    abbrev found_inode : Fs
    found_inode = record s { std_inode = inode_bytes }

    abbrev after : Fs
    after = update_block buffer ofs (width offset length s) data_lba found_inode

    write_inode_data-direct :
        write_inode_data inode buffer offset length s ≡ some (width offset length s, after)
    unfolding write_inode_data
    write_inode_data-direct =
        rw (set_inode-copied inode s table)
          (rw (data_block-direct (offset / s.block_size) found_inode direct))

    width_fits : ofs + width offset length s ≤ s.block_size
    width_fits =
        let pos : 0 < s.block_size = omega (arith, table.volume.sizes, table.volume.factor_pos) in
        ground (arith, mod-lt offset pos)

    ofs-lt : ofs < s.block_size
    ofs-lt = mod-lt offset (omega (arith, table.volume.sizes, table.volume.factor_pos))

    -- The drive after the write, which the inode on it survives.
    after-disk : after.disk ≡ written buffer (position data_lba ofs) (width offset length s) s.disk
    after-disk =
        update_block-written buffer ofs (width offset length s) data_lba found_inode
          (IsVolume-inode s inode_bytes table.volume)
          (omega (arith, mod-eq_of_lt ofs-lt, width_fits))
          (omega (arith, ap (λ (t : ℕ). s.block_factor * t) (div-eq_of_lt ofs-lt), reachable))

    inode-kept : (j : ℕ) → j < 128 → after.disk (at + j) ≡ s.disk (at + j)
    inode-kept j h =
        ap (λ f. f (at + j)) after-disk
        ∙ written-apart buffer (position data_lba ofs) (width offset length s) s.disk at j h
            (elim apart [ inl a ↦ inl (omega arith) | inr b ↦ inr (omega (arith, width_fits)) ])

    same_inode : copied after.disk at 128 inode_bytes ≡ inode_bytes
    same_inode = fun_ext λ j. copied_again after.disk s.disk s.std_inode at j (inode-kept j)

    set_again : set_inode inode after ≡ some after
    unfolding update_block
    set_again =
        set_inode-copied inode after (InTable-disk inode s _ _ _ table)
        ∙ ap (λ m. some (record after { std_inode = m })) same_inode

    read_again :
        read_inode_data inode other offset length after
        ≡ some (
          width offset length s,
          copied after.disk (position data_lba ofs) (width offset length s) other,
          after,
        )
    unfolding read_inode_data update_block
    read_again = rw set_again (
        rw (data_block-direct (offset / s.block_size) after direct) (
          ap (λ o. o >>= λ b. some (width offset length s, b, after))
            (read_part data_lba ofs (width offset length s) after.disk other s table.volume
              width_fits reachable)))

    -- What `write_inode_data` wrote to a direct block of a file, `read_inode_data` reads back.
    pub read_inode_data-write_inode_data :
        (s1 s2 : Fs) × (b : Bytes) × (write_inode_data inode buffer offset length s
          ≡ some (width offset length s, s1))
        × (read_inode_data inode other offset length s1 ≡ some (width offset length s, b, s2))
        × ((j : ℕ) → j < width offset length s → b j ≡ buffer j)
    read_inode_data-write_inode_data = (
      after,
      after,
      _,
      write_inode_data-direct,
      read_again,
      λ j h.
          copied_at after.disk (position data_lba ofs) (width offset length s) other j h
          ∙ ap (λ f. f (position data_lba ofs + j)) after-disk
          ∙ written-at buffer (position data_lba ofs) (width offset length s) s.disk j h,
    )
