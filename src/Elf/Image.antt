-- ===== src/Elf/Image.antt =====
-- What `check_and_load` of src/elf.c leaves of a whole file in the pages of the process.
use mariobr_os.Base.{
  ℕ, zero, suc, ◌+◌, ◌-◌, ◌^◌, ◌≤◌, ◌<◌, ◌≡◌, ◌≢◌, ◌∙◌, ◌⊎◌, inl, inr, refl, ap, subst, sym, true,
  ◌&&◌, ◌==◌, if◌then◌else◌, ltb, leb, arith, some, Bool-cases, ltb→lt, ltb→le, ne→==,
}
use mariobr_os.Memory.{Bytes, load16, load32}
use mariobr_os.Elf.{
  adr, Segment, segment_at, entry_at, load_segment, load_segments, program_header_table,
  pht_entry_size, pht_entry_nb, entry_point, valid_header, check_and_load,
}
use mariobr_os.Elf.Views.{InCode, ArePages, Outside}
use mariobr_os.Elf.Segments.{Fits, segment_byte, load32-eq, load_segment-view}

-- Every cell holds a byte.
abbrev pub AreBytes : Bytes → Type 0
AreBytes m = (j : ℕ) → m j < 2 ^ 8

-- The segment of a number.
abbrev pub segment_number : ℕ → Bytes → ℕ → Segment
segment_number f m i = segment_at m (entry_at m f i)

-- The byte that a process finds at an address after the segments below `n`, by the file alone: a
-- segment lies over the ones before it.
abbrev pub image : (ℕ → ℕ) → ℕ → Bytes → ℕ → ℕ → ℕ
image virtuals f m zero a = m (adr virtuals a)
image virtuals f m (suc i) a =
    let before = image virtuals f m i a in
    if (segment_number f m i).segment_type == 1
    then segment_byte f (segment_number f m i) m before a
    else before

-- A file whose header and entries lie outside the pages, and whose segments that are to be loaded fit.
pub record IsLoadable (virtuals : ℕ → ℕ) (f : ℕ) (m : Bytes) : Type 0 where
  pub header : (j : ℕ) → f ≤ j → j < f + 52 → Outside virtuals j
  pub entries :
      (i j : ℕ)
      → i < pht_entry_nb m f
      → entry_at m f i ≤ j
      → j < entry_at m f i + 32
      → Outside virtuals j
  pub segments :
      (i : ℕ)
      → i < pht_entry_nb m f
      → ((segment_number f m i).segment_type ≢ 1) ⊎ Fits virtuals f (segment_number f m i)

-- The memory after the segments below `i`.
record IsLoaded (virtuals : ℕ → ℕ) (f : ℕ) (m : Bytes) (i : ℕ) (mi : Bytes) : Type 0 where
  pub inside : (a : ℕ) → InCode a → mi (adr virtuals a) ≡ image virtuals f m i a
  pub outside : (j : ℕ) → Outside virtuals j → mi j ≡ m j

load16-lt : (m : Bytes) (a : ℕ) → AreBytes m → load16 m a < 2 ^ 16
unfolding load16
load16-lt m a h = omega (arith, h a, h (a + 1))

load16-eq : (m m1 : Bytes) (b : ℕ) → m1 b ≡ m b → m1 (b + 1) ≡ m (b + 1) → load16 m1 b ≡ load16 m b
unfolding load16
load16-eq m m1 b h k = rw (h, k) refl

segment_at-eq :
    (m m1 : Bytes) (e : ℕ)
    → ((j : ℕ) → e ≤ j → j < e + 32 → m1 j ≡ m j)
    → segment_at m1 e ≡ segment_at m e
unfolding segment_at
segment_at-eq m m1 e h =
    let same : (b : ℕ) → e ≤ b → b + 4 ≤ e + 32 → load32 m1 b ≡ load32 m b =
      λ b lo hi. load32-eq m m1 b (λ j k l. h j (omega arith) (omega arith)) in
    rw
      (
        same e (omega arith) (omega arith),
        same (e + 4) (omega arith) (omega arith),
        same (e + 8) (omega arith) (omega arith),
        same (e + 16) (omega arith) (omega arith),
        same (e + 20) (omega arith) (omega arith),
      )
      refl

-- The byte depends on the bytes of the file and on what was there.
segment_byte-eq :
    (f : ℕ) (s : Segment) (m m1 : Bytes) (x y a : ℕ)
    → ((i : ℕ)
        → i < s.segment_size_in_file
        → m1 (f + s.segment_offset + i) ≡ m (f + s.segment_offset + i))
    → x ≡ y
    → segment_byte f s m1 x a ≡ segment_byte f s m y a
segment_byte-eq f s m m1 x y a h e =
    let v : ℕ = s.segment_virtual_address in
    elim (Bool-cases (leb v a && ltb a (v + s.segment_size_in_file))) [
      | inl k ↦ rw k (h (a - v) (ground (arith, k)))
      | inr k ↦ rw (k, e) refl
    ]

load_segment_skips :
    (f e : ℕ) (virtuals : ℕ → ℕ) (m : Bytes)
    → (segment_at m e).segment_type ≢ 1
    → load_segment f e virtuals m ≡ m
unfolding load_segment segment_at
load_segment_skips f e virtuals m ne = rw (ne→== (load32 m e) 1 ne) refl

module _ (virtuals : ℕ → ℕ) (f : ℕ) (m : Bytes) (pages : ArePages virtuals)
    (file : IsLoadable virtuals f m) where
  module _ (i : ℕ) (mi : Bytes) (s : IsLoaded virtuals f m i mi) where
    header-eq : (b : ℕ) → f ≤ b → b < f + 52 → mi b ≡ m b
    header-eq b lo hi = s.outside b (file.header b lo hi)

    pht_entry_nb-eq : pht_entry_nb mi f ≡ pht_entry_nb m f
    pht_entry_nb-eq =
        load16-eq m mi (f + 44) (header-eq (f + 44) (omega arith) (omega arith))
          (header-eq (f + 44 + 1) (omega arith) (omega arith))

    entry_point-eq : entry_point mi f ≡ entry_point m f
    entry_point-eq = load32-eq m mi (f + 24) (λ j lo hi. header-eq j (omega arith) (omega arith))

    entry_at-eq : (k : ℕ) → entry_at mi f k ≡ entry_at m f k
    unfolding entry_at
    entry_at-eq k =
        let table : program_header_table mi f ≡ program_header_table m f =
          load32-eq m mi (f + 28) (λ j lo hi. header-eq j (omega arith) (omega arith)) in
        let size : pht_entry_size mi f ≡ pht_entry_size m f =
          load16-eq m mi (f + 42) (header-eq (f + 42) (omega arith) (omega arith))
            (header-eq (f + 42 + 1) (omega arith) (omega arith)) in
        rw (table, size) refl

    round-IsLoaded :
        i < pht_entry_nb m f
        → IsLoaded virtuals f m (suc i) (load_segment f (entry_at mi f i) virtuals mi)
    round-IsLoaded more =
        let e : ℕ = entry_at m f i in
        let entry : (j : ℕ) → e ≤ j → j < e + 32 → Outside virtuals j =
          λ j lo hi. file.entries i j more lo hi in
        let same : segment_at mi e ≡ segment_at m e =
          segment_at-eq m mi e (λ j lo hi. s.outside j (entry j lo hi)) in
        rw (entry_at-eq i) (elim (file.segments i more) [
          | inl ne ↦
              let skips =
                load_segment_skips f e virtuals mi
                  (subst (λ t. t.segment_type ≢ 1) (sym same) ne) in
              record {
                inside = λ a h. rw (skips, ne→== _ _ ne) (s.inside a h);
                outside = λ j out. rw skips (s.outside j out);
              }
          | inr fits ↦
              let view =
                load_segment-view virtuals f e mi pages (subst (Fits virtuals f) (sym same) fits)
                  entry in
              record {
                inside = λ a h.
                    view.0 a h
                    ∙ ap (λ t. segment_byte f t mi (mi (adr virtuals a)) a) same
                    ∙ segment_byte-eq f (segment_at m e) m mi (mi (adr virtuals a))
                        (image virtuals f m i a) a (λ k l. s.outside _ (fits.apart k l))
                        (s.inside a h)
                    ∙ rw fits.loads refl;
                outside = λ j out. view.1 j out ∙ s.outside j out;
              }
        ])

  load_segments-IsLoaded :
      (n i : ℕ) (mi : Bytes)
      → IsLoaded virtuals f m i mi
      → i ≤ pht_entry_nb m f
      → pht_entry_nb m f < i + n
      → (m1 : Bytes) × (load_segments n i f virtuals mi ≡ some m1)
        × IsLoaded virtuals f m (pht_entry_nb m f) m1
  unfolding load_segments
  load_segments-IsLoaded zero i mi s le lt = absurd (omega arith)
  load_segments-IsLoaded (suc n) i mi s le lt =
      let nb = pht_entry_nb-eq i mi s in
      elim (Bool-cases (ltb i (pht_entry_nb mi f))) [
        | inl more ↦
            let (m1, e, t) =
              load_segments-IsLoaded n (suc i) (load_segment f (entry_at mi f i) virtuals mi)
                (round-IsLoaded i mi s (omega (arith, ltb→lt _ _ more, nb)))
                (omega (arith, ltb→lt _ _ more, nb)) (omega arith) in
            (m1, rw (more, load_segments) e, t)
        | inr done ↦
            let last : i ≡ pht_entry_nb m f = omega (arith, ltb→le _ _ done, nb) in
            (mi, rw (done, load_segments) refl, subst (λ k. IsLoaded virtuals f m k mi) last s)
      ]

-- A file with a valid header is loaded: the process finds at every address of the user code the byte
-- of the last segment that lies there, or what was there before where none does; no byte outside the
-- pages is changed; and the result is the entry point. This holds for bytes in the memory, pages that
-- are mapped at different pages, and a file of which the header and the entries lie outside the pages
-- and the segments fit.
pub check_and_load-image :
    (virtuals : ℕ → ℕ) (f : ℕ) (m : Bytes)
    → AreBytes m
    → ArePages virtuals
    → IsLoadable virtuals f m
    → valid_header m f ≡ true
    → (m1 : Bytes) × (check_and_load f virtuals m ≡ some (entry_point m f, m1))
      × ((a : ℕ) → InCode a → m1 (adr virtuals a) ≡ image virtuals f m (pht_entry_nb m f) a)
      × ((j : ℕ) → Outside virtuals j → m1 j ≡ m j)
unfolding check_and_load
check_and_load-image virtuals f m bytes pages file ok =
    let (m1, e, t) =
      load_segments-IsLoaded virtuals f m pages file (2 ^ 16) 0 m
        (record { inside = λ a h. refl; outside = λ j out. refl }) (omega arith)
        (omega (arith, load16-lt m (f + 44) bytes)) in
    (
      m1,
      rw (ok, check_and_load, e, entry_point-eq virtuals f m pages file (pht_entry_nb m f) m1 t)
          refl,
      t.inside,
      t.outside,
    )
