-- ===== src/Elf/Segments.antt =====
-- What `check_and_load` of src/elf.c does with a segment of a file.
use mariobr_os.Base.{
  ℕ, ◌+◌, ◌-◌, ◌^◌, ◌≤◌, ◌<◌, ◌≡◌, ◌∙◌, inl, inr, refl, ◌&&◌, if◌then◌else◌, ltb, leb, arith, add32,
  Bool-cases,
}
use mariobr_os.Memory.{Bytes, load32}
use mariobr_os.Elf.{start_of_user_code, adr, mem_set_page, Segment, segment_at, load_segment}
use mariobr_os.Elf.Views.{
  InCode, ArePages, Outside, mem_set_page-view, mem_set_page-Outside, mem_copy_page-view,
  mem_copy_page-Outside,
}

-- A segment that lies in the user code, of which the file holds no more than it has in memory, where
-- the file at `f` holds its bytes outside the pages.
pub record Fits (virtuals : ℕ → ℕ) (f : ℕ) (s : Segment) : Type 0 where
  pub loads : s.segment_type ≡ 1
  pub low : start_of_user_code ≤ s.segment_virtual_address
  pub high : s.segment_virtual_address + s.segment_size_in_memory ≤ 2 ^ 32
  pub in_file : s.segment_size_in_file ≤ s.segment_size_in_memory
  pub inside : f + s.segment_offset + s.segment_size_in_file < 2 ^ 32
  pub apart : (i : ℕ) → i < s.segment_size_in_file → Outside virtuals (f + s.segment_offset + i)

-- The byte at an address of the process, after the segment is loaded.
abbrev pub segment_byte : ℕ → Segment → Bytes → ℕ → ℕ → ℕ
segment_byte f s m before a =
    if leb s.segment_virtual_address a && ltb a (s.segment_virtual_address + s.segment_size_in_file)
    then m (f + s.segment_offset + (a - s.segment_virtual_address))
    else if leb s.segment_virtual_address a
        && ltb a (s.segment_virtual_address + s.segment_size_in_memory)
    then 0
    else before

-- Numbers whose bytes are the same.
pub load32-eq :
    (m m1 : Bytes) (b : ℕ) → ((j : ℕ) → b ≤ j → j < b + 4 → m1 j ≡ m j) → load32 m1 b ≡ load32 m b
unfolding load32
load32-eq m m1 b h =
    rw
      (
        h b (omega arith) (omega arith),
        h (b + 1) (omega arith) (omega arith),
        h (b + 2) (omega arith) (omega arith),
        h (b + 3) (omega arith) (omega arith),
      )
      refl

-- The process finds the bytes of the file in a segment that is loaded, zeros behind them up to the
-- size in memory, and what was there elsewhere; no byte outside the pages is changed. This holds for
-- pages that are mapped at different pages, a segment that fits the user code, and an entry of the
-- segment that lies outside the pages.
pub load_segment-view :
    (virtuals : ℕ → ℕ) (f e : ℕ) (m : Bytes)
    → ArePages virtuals
    → Fits virtuals f (segment_at m e)
    → ((j : ℕ) → e ≤ j → j < e + 32 → Outside virtuals j)
    → ((a : ℕ)
        → InCode a
        → load_segment f e virtuals m (adr virtuals a)
          ≡ segment_byte f (segment_at m e) m (m (adr virtuals a)) a)
      × ((j : ℕ) → Outside virtuals j → load_segment f e virtuals m j ≡ m j)
unfolding load_segment segment_at
load_segment-view virtuals f e m pages fits entry =
    let o : ℕ = load32 m (e + 4) in
    let v : ℕ = load32 m (e + 8) in
    let n : ℕ = load32 m (e + 16) in
    let from : add32 f o ≡ f + o = omega (arith, fits.inside) in
    let m1 = mem_set_page v 0 (load32 m (e + 20)) virtuals m in
    let high : v + n ≤ 2 ^ 32 = omega (arith, fits.high, fits.in_file) in
    let kept : (j : ℕ) → Outside virtuals j → m1 j ≡ m j = λ j out.
      mem_set_page-Outside virtuals pages v 0 (load32 m (e + 20)) j m fits.low fits.high out in
    let same : (b : ℕ) → e ≤ b → b + 4 ≤ e + 32 → load32 m1 b ≡ load32 m b =
      λ b lo hi. load32-eq m m1 b (λ j k l. kept j (entry j (omega arith) (omega arith))) in
    rw
      (
        fits.loads,
        same (e + 4) (omega arith) (omega arith),
        same (e + 16) (omega arith) (omega arith),
        from,
      )
      (
        λ a h.
            mem_copy_page-view virtuals pages v (f + o) n m1 a h fits.low high
              (omega (arith, fits.inside)) fits.apart
            ∙ elim (Bool-cases (leb v a && ltb a (v + n))) [
              | inl k ↦
                  let inside : a - v < n = ground (arith, k) in
                  rw k (kept (f + o + (a - v)) (fits.apart (a - v) inside))
              | inr k ↦ rw k (
                  mem_set_page-view virtuals pages v 0 (load32 m (e + 20)) m a h fits.low fits.high)
            ],
        λ j out.
            mem_copy_page-Outside virtuals pages v (f + o) n j m1 fits.low high out ∙ kept j out,
      )
