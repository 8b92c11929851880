-- ===== src/Elf/Tests.antt =====
-- The loader of src/elf.c on a small file.
use mariobr_os.Base.{
  ℕ, zero, suc, ◌+◌, ◌*◌, ◌%◌, ◌^◌, ◌≤◌, ◌<◌, ◌≡◌, ◌≢◌, ◌⊎◌, inl, inr, refl, true, List, [], ◌∷◌,
  ◌==◌, some, arith, ltb, if◌then◌else◌, sym, subst,
}
use mariobr_os.Memory.{Bytes}
use mariobr_os.Elf.{
  adr, Segment, segment_at, entry_at, load_segment, valid_header, pht_entry_nb, entry_point,
  check_and_load,
}
use mariobr_os.Elf.Views.{InCode, ArePages, Outside}
use mariobr_os.Elf.Segments.{Fits, segment_byte, load_segment-view}
use mariobr_os.Elf.Image.{IsLoadable, image, check_and_load-image}

-- The sixteen pages are mapped from an address on.
abbrev frames : ℕ → ℕ
frames i = if ltb i 16 then 0x10_0000 + 0x1000 * i else 0

frames-ArePages : ArePages frames
frames-ArePages = record {
  aligned = λ i h. ground arith;
  bounded = λ i h. ground arith;
  different = λ i j h k e. ground arith;
}

frames_high : (a : ℕ) → InCode a → 0x10_0000 ≤ adr frames a
unfolding adr
frames_high a h = ground arith

frames-Outside : (j : ℕ) → j < 0x10_0000 → Outside frames j
frames-Outside j h a k e = absurd (omega (arith, frames_high a k, e))

-- The bytes at the given addresses, and 0 elsewhere.
abbrev bytes_at : List (ℕ × ℕ) → Bytes
bytes_at [] j = 0
bytes_at ((i, c) ∷ xs) j = if j == i then c else bytes_at xs j

-- A file with a valid header and two segments: one of 8 bytes in the file and 16 in memory, and one
-- that is not to be loaded.
abbrev file : Bytes
file j =
    bytes_at
      ((0, 0x7f)
        ∷ (1, 0x45)
        ∷ (2, 0x4c)
        ∷ (3, 0x46)
        ∷ (4, 1)
        ∷ (5, 1)
        ∷ (16, 2)
        ∷ (18, 3)
        ∷ (26, 0xff)
        ∷ (27, 0xff)
        ∷ (28, 0x34)
        ∷ (42, 32)
        ∷ (44, 2)
        ∷ (0x34, 1)
        ∷ (0x38, 0x80)
        ∷ (0x3d, 0x10)
        ∷ (0x3e, 0xff)
        ∷ (0x3f, 0xff)
        ∷ (0x44, 8)
        ∷ (0x48, 16)
        ∷ (0x54, 2)
        ∷ (0x80, 0xeb)
        ∷ (0x81, 0xfe)
        ∷ [])
      j
    % 2 ^ 8

file_valid : valid_header file 0 ≡ true
unfolding valid_header mariobr_os.Memory.load16 mariobr_os.Memory.load32
file_valid = refl

abbrev text : Segment
text = record {
  segment_type = 1;
  segment_offset = 0x80;
  segment_virtual_address = 0xffff_1000;
  segment_size_in_file = 8;
  segment_size_in_memory = 16;
}

file-text : segment_at file 0x34 ≡ text
unfolding segment_at mariobr_os.Memory.load32
file-text = refl

text-Fits : Fits frames 0 text
text-Fits = record {
  loads = refl;
  low = omega arith;
  high = omega arith;
  in_file = omega arith;
  inside = omega arith;
  apart = λ i h. frames-Outside (0 + 0x80 + i) (omega arith);
}

load_segment-view_example :
    ((a : ℕ)
      → InCode a
      → load_segment 0 0x34 frames file (adr frames a)
        ≡ segment_byte 0 (segment_at file 0x34) file (file (adr frames a)) a)
    × ((j : ℕ) → Outside frames j → load_segment 0 0x34 frames file j ≡ file j)
load_segment-view_example =
    load_segment-view frames 0 0x34 file frames-ArePages
      (subst (Fits frames 0) (sym file-text) text-Fits) (λ j lo hi. frames-Outside j (omega arith))

file_entries : pht_entry_nb file 0 ≡ 2
unfolding mariobr_os.Memory.load16
file_entries = refl

file_entry : (i : ℕ) → i < 2 → entry_at file 0 i ≡ 0x34 + 32 * i
unfolding entry_at mariobr_os.Memory.load16 mariobr_os.Memory.load32
file_entry zero h = refl
file_entry (suc zero) h = refl
file_entry (suc (suc i)) h = absurd (omega arith)

not_loaded : (segment_at file 0x54).segment_type ≢ 1
unfolding segment_at mariobr_os.Memory.load32
not_loaded e = absurd (omega (arith, e))

file_segment :
    (i : ℕ)
    → i < 2
    → ((segment_at file (entry_at file 0 i)).segment_type ≢ 1)
      ⊎ Fits frames 0 (segment_at file (entry_at file 0 i))
file_segment zero h =
    rw (file_entry 0 (omega arith)) (inr (subst (Fits frames 0) (sym file-text) text-Fits))
file_segment (suc zero) h = rw (file_entry 1 (omega arith)) (inl not_loaded)
file_segment (suc (suc i)) h = absurd (omega arith)

file-IsLoadable : IsLoadable frames 0 file
file-IsLoadable = record {
  header = λ j lo hi. frames-Outside j (omega arith);
  entries = λ i j h lo hi.
      let k : i < 2 = omega (arith, file_entries, h) in
      frames-Outside j (omega (arith, file_entry i k));
  segments = λ i h. file_segment i (omega (arith, file_entries, h));
}

check_and_load-image_example :
    (m1 : Bytes) × (check_and_load 0 frames file ≡ some (entry_point file 0, m1))
    × ((a : ℕ) → InCode a → m1 (adr frames a) ≡ image frames 0 file (pht_entry_nb file 0) a)
    × ((j : ℕ) → Outside frames j → m1 j ≡ file j)
check_and_load-image_example =
    check_and_load-image frames 0 file (λ j. omega arith) frames-ArePages file-IsLoadable file_valid
