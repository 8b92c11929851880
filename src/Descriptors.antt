-- ===== src/Descriptors.antt =====
-- src/gdt.c and src/idt.c: the descriptors of segments and of interrupt handlers, which scatter an
-- address over their fields. The flags that are the same in every descriptor are left out, and so are
-- the pointers that the processor is given.
pub mod Decoding
mod Tests
use mariobr_os.Base.{
  ℕ, zero, suc, ◌+◌, ◌-◌, ◌*◌, ◌/◌, ◌%◌, ◌^◌, ◌>>=◌, Bool, true, false, not, Option, none, some,
  put, ◌==◌, if◌then◌else◌, bit_or, List, [], ◌∷◌,
}

-- `gdt_entry_t`
pub record GdtEntry : Type 0 where
  pub limit_low : ℕ
  pub base_low : ℕ
  pub base_middle : ℕ
  pub access : Bool
  pub read_write : Bool
  pub executable : Bool
  pub always_one : Bool
  pub privilege : ℕ
  pub present : Bool
  pub limit_high : ℕ
  pub available : Bool
  pub granularity : Bool
  pub base_high : ℕ

-- `gdt` and `current_entry`
pub record Gdt : Type 0 where
  pub gdt : ℕ → GdtEntry
  pub current_entry : ℕ

abbrev pub gdt_size : ℕ
gdt_size = 8

abbrev pub segment_entry : ℕ → ℕ → Bool → ℕ → GdtEntry
segment_entry base limit code ring = record {
  limit_low = limit % 2 ^ 16;
  base_low = base % 2 ^ 16;
  base_middle = base / 2 ^ 16 % 2 ^ 8;
  access = false;
  read_write = true;
  executable = code;
  always_one = true;
  privilege = ring % 4;
  present = not (base == limit);
  limit_high = limit / 2 ^ 16 % 2 ^ 4;
  available = true;
  granularity = true;
  base_high = base / 2 ^ 24 % 2 ^ 8;
}

-- The selector of the new segment, and the table; `none` is a `throw`.
unfoldable pub add_segment : ℕ → ℕ → Bool → ℕ → Gdt → Option (ℕ × Gdt)
add_segment base limit code ring g =
    if g.current_entry == gdt_size
    then none
    else some (
      bit_or (g.current_entry * 8) ring,
      record {
        gdt = put g.gdt g.current_entry (segment_entry base limit code ring);
        current_entry = g.current_entry + 1;
      },
    )

-- The descriptor of the task state at an address, of the given size.
unfoldable pub write_tss : ℕ → ℕ → Gdt → ℕ × Gdt
write_tss base limit g = (
  bit_or (g.current_entry * 8) 0,
  record {
    gdt = put g.gdt g.current_entry (record {
      limit_low = limit % 2 ^ 16;
      base_low = base % 2 ^ 16;
      base_middle = base / 2 ^ 16 % 2 ^ 8;
      access = true;
      read_write = false;
      executable = true;
      always_one = false;
      privilege = 0;
      present = true;
      limit_high = limit / 2 ^ 16 % 2 ^ 4;
      available = false;
      granularity = false;
      base_high = base / 2 ^ 24 % 2 ^ 8;
    });
    current_entry = g.current_entry + 1;
  },
)

-- The selectors in the order of the code, and the table.
unfoldable pub gdt_install : ℕ → ℕ → Gdt → Option (List ℕ × Gdt)
gdt_install tss_address tss_size g = do
  (null_segment, g1) ← add_segment 0 0 false 0 g
  (kernel_code_segment, g2) ← add_segment 0 0xf_ffff true 0 g1
  (kernel_data_segment, g3) ← add_segment 0 0xf_ffff false 0 g2
  (kernel_stack_segment, g4) ← add_segment 0 0xf_ffff false 0 g3
  (user_code_segment, g5) ← add_segment 0 0xf_ffff true 3 g4
  (user_data_segment, g6) ← add_segment 0 0xf_ffff false 3 g5
  (user_stack_segment, g7) ← add_segment 0 0xf_ffff false 3 g6
  let (tss_segment, g8) = write_tss tss_address tss_size g7
  some (
    null_segment ∷ kernel_code_segment ∷ kernel_data_segment ∷ kernel_stack_segment
        ∷ user_code_segment ∷ user_data_segment ∷ user_stack_segment ∷ tss_segment ∷ [],
    g8,
  )

-- `idt_entry_t`
pub record IdtEntry : Type 0 where
  pub address_low : ℕ
  pub selector : ℕ
  pub gate_type : ℕ
  pub dpl : ℕ
  pub present : Bool
  pub address_high : ℕ

unfoldable pub idt_set_gate : ℕ → ℕ → ℕ → ℕ → (ℕ → IdtEntry) → ℕ → IdtEntry
idt_set_gate num address selector privilege idt = put idt num (record {
  address_low = address % 2 ^ 16;
  selector = selector;
  gate_type = 0xe;
  dpl = privilege % 4;
  present = true;
  address_high = address / 2 ^ 16 % 2 ^ 16;
})

-- The loop of `idt_install` over the entries below `i`.
unfoldable pub idt_install : ℕ → (ℕ → IdtEntry) → ℕ → IdtEntry
idt_install zero idt = idt
idt_install (suc i) idt = idt_set_gate i 0 0 0 (idt_install i idt)
