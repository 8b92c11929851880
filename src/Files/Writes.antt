-- ===== src/Files/Writes.antt =====
-- The loop of `write` ends, and what it leaves in the descriptor.
use mariobr_os.Base.{
  ℕ, zero, suc, ◌+◌, ◌-◌, ◌/◌, ◌^◌, ◌≤◌, ◌<◌, ◌≡◌, ◌∙◌, refl, ap, max, true, false, not, ◌&&◌, some,
  List, ◌==◌, ltb, bit_and, is_true, add32, sub32, arith, ne→==, ==→ne, Bool-cases, inl, inr, ◌⊎◌,
}
use mariobr_os.Files.{
  FileSystem, Entry, Fdt, entry, set_entry, is_valid, write_loop, blocks_used, grow, after_write,
  write,
}
use mariobr_os.Files.Offsets.{entry-set_entry}

zero-cases : (n : ℕ) → (n ≡ 0) ⊎ ((m : ℕ) × (n ≡ suc m))
zero-cases zero = inl refl
zero-cases (suc m) = inr (m, refl)

module _ {D : Type 0} (fs : FileSystem D) (inode : ℕ) (buffer : List ℕ) (total : ℕ)
    (word : total < 2 ^ 32)
    (law : (i : ℕ) (b : List ℕ) (o p n : ℕ) (d : D) → (fs.write_inode_data i b o p n d).0 ≤ n) where
  -- With a round for each byte that is left and one more, the loop ends: it has written at most
  -- what was asked for, and the position has moved on by as many bytes.
  pub write_loop-ends :
      (fuel offset pos written : ℕ) (d : D)
      → written ≤ total
      → total - written < fuel
      → pos + total < 2 ^ 32 + written
      → (pos' written' : ℕ) × (d' : D) × (write_loop fs fuel inode buffer offset pos written total d
          ≡ some (pos', written', d'))
        × (written ≤ written')
        × (written' ≤ total)
        × (pos' + written ≡ pos + written')
  unfolding write_loop
  write_loop-ends zero offset pos written d h k fits = absurd (omega arith)
  write_loop-ends (suc fuel) offset pos written d h k fits = elim (Bool-cases (written == total)) [
    | inl e ↦ rw (e, write_loop) (pos, written, d, refl, omega arith, h, refl)
    | inr e ↦
        elim (zero-cases (fs.write_inode_data inode buffer offset pos (total - written) d).0) [
          | inl z ↦ rw (e, z, write_loop) (pos, written, _, refl, omega arith, h, refl)
          | inr (m, q) ↦
              let some_left : suc m ≤ total - written =
                omega (arith, q, law inode buffer offset pos (total - written) d) in
              let (p', w', d', eq, a, b, c) =
                write_loop-ends fuel (add32 offset (suc m)) (add32 pos (suc m))
                  (add32 written (suc m))
                  (fs.write_inode_data inode buffer offset pos (total - written) d).1 (omega arith)
                  (omega (arith, ==→ne written total e)) (omega arith) in
              rw (e, q, write_loop) (p', w', d', eq, omega arith, b, omega arith)
        ]
  ]

grow-entry :
    {D : Type 0} (fs : FileSystem D) (s : Fdt D) (f : ℕ)
    → ((entry (grow fs f s) f).pos ≡ (entry s f).pos)
      × ((entry (grow fs f s) f).size ≡ max (entry s f).size (entry s f).pos)
unfolding grow
grow-entry fs s f = ground arith

module _ {D : Type 0} (fs : FileSystem D) (s : Fdt D) (f fuel offset total : ℕ) (buffer : List ℕ)
    (law : (i : ℕ) (b : List ℕ) (o p n : ℕ) (d : D) → (fs.write_inode_data i b o p n d).0 ≤ n) where
  -- The blocks that the write needs are there.
  abbrev pub Prepared : Type 0
  Prepared =
      let e : Entry = entry s f in
      let to_use : ℕ = add32 1 (sub32 (add32 e.pos total) 1 / fs.block_size) in
      let used : ℕ = blocks_used fs e.size in
      (ltb used to_use && not ((fs.prepare_blocks e.inode used to_use s.disk).0 == to_use - used))
      ≡ false

  -- On a valid descriptor that is open for writing, `write` returns when its fuel is more than the
  -- number of bytes, if the blocks it needs could be prepared. It has written some number of
  -- bytes, at most what was asked for: the position moves on by as many, and the file is as large
  -- as it was or reaches up to the position. The file system never writes more than it is asked
  -- for, and the position does not overflow.
  pub write-advances :
      is_valid s f ≡ true
      → is_true (bit_and (entry s f).mode 2) ≡ true
      → 0 < total
      → total < fuel
      → (entry s f).pos + total < 2 ^ 32
      → Prepared
      → (n : ℕ) × (t : Fdt D) × (write fs fuel f buffer offset total s ≡ some (n, t))
        × (n ≤ total)
        × ((entry t f).pos ≡ (entry s f).pos + n)
        × ((entry t f).size ≡ max (entry s f).size ((entry s f).pos + n))
  unfolding write after_write
  write-advances valid mode more fuelled fits ready =
      let e : Entry = entry s f in
      let to_use : ℕ = add32 1 (sub32 (add32 e.pos total) 1 / fs.block_size) in
      let d0 : D = (fs.prepare_blocks e.inode (blocks_used fs e.size) to_use s.disk).1 in
      let (p, n, d, done, a, b, c) =
        write_loop-ends fs e.inode buffer total (omega arith) law fuel offset e.pos 0 d0
          (omega arith) (omega arith) (omega arith) in
      let moved : Fdt D = set_entry (record s { disk = d }) f (record e { pos = p }) in
      let (x, y) = grow-entry fs moved f in
      let m : entry moved f ≡ record e { pos = p } = entry-set_entry (record s { disk = d }) f _ in
      (
        n,
        grow fs f moved,
        rw (valid, mode, ne→== total 0 (omega arith), ready, done) refl,
        b,
        x ∙ ap (λ (e : Entry). e.pos) m ∙ omega arith,
        y ∙ ap (λ (e : Entry). max e.size e.pos) m ∙ ap (max e.size) (omega arith),
      )
