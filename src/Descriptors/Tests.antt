-- ===== src/Descriptors/Tests.antt =====
-- A segment and a gate.
use mathlib.Core.Option
use mariobr_os.Base.{ℕ, ◌≡◌, ◌≢◌, refl, true, false, some, arith, List, [], ◌∷◌}
use mariobr_os.Descriptors.{Gdt, add_segment, write_tss, gdt_install}
use mariobr_os.Descriptors.Decoding.{base_of_entry, limit_of_entry, add_segment-entry}

abbrev empty_table : Gdt
empty_table = record {
  gdt = λ i. record {
    limit_low = 0;
    base_low = 0;
    base_middle = 0;
    access = false;
    read_write = false;
    executable = false;
    always_one = false;
    privilege = 0;
    present = false;
    limit_high = 0;
    available = false;
    granularity = false;
    base_high = 0;
  };
  current_entry = 4;
}

add_segment-entry_example :
    (selector : ℕ) × (h : Gdt) × (add_segment 0x1234_5678 0xf_ffff true 3 empty_table
      ≡ some (selector, h))
    × (base_of_entry (h.gdt 4) ≡ 0x1234_5678)
    × (limit_of_entry (h.gdt 4) ≡ 0xf_ffff)
    × ((h.gdt 4).privilege ≡ 3)
    × ((i : ℕ) → i ≢ 4 → h.gdt i ≡ empty_table.gdt i)
add_segment-entry_example =
    add_segment-entry 0x1234_5678 0xf_ffff 3 true empty_table (omega arith) (omega arith)
      (omega arith) (omega arith)

-- The eight descriptors fill the table.
installed :
    Option.map
      (λ (r : List ℕ × Gdt). r.0)
      (gdt_install 0x5000 104 (record empty_table { current_entry = 0 }))
    ≡ some (0 ∷ 8 ∷ 16 ∷ 24 ∷ 35 ∷ 43 ∷ 51 ∷ 56 ∷ [])
unfolding gdt_install add_segment write_tss
installed = refl
