-- ===== src/Descriptors/Decoding.antt =====
-- What the processor reads in the descriptors of src/gdt.c and src/idt.c.
use mariobr_os.Base.{
  ℕ, ◌+◌, ◌*◌, ◌^◌, ◌<◌, ◌≡◌, ◌≢◌, refl, Bool, true, false, some, put, ◌==◌, arith, bit_or, eq→==,
  ne→==,
}
use mariobr_os.Descriptors.{
  GdtEntry, Gdt, IdtEntry, gdt_size, segment_entry, add_segment, idt_set_gate,
}

abbrev pub base_of_entry : GdtEntry → ℕ
base_of_entry e = e.base_low + 2 ^ 16 * e.base_middle + 2 ^ 24 * e.base_high

abbrev pub limit_of_entry : GdtEntry → ℕ
limit_of_entry e = e.limit_low + 2 ^ 16 * e.limit_high

abbrev gate_address : IdtEntry → ℕ
gate_address e = e.address_low + 2 ^ 16 * e.address_high

-- In a table that has room the processor finds the base, the limit and the ring of a new segment as
-- they were given, for a base of 32 bits and a limit of 20, and every other entry as it was.
pub add_segment-entry :
    (base limit ring : ℕ) (code : Bool) (g : Gdt)
    → g.current_entry < gdt_size
    → base < 2 ^ 32
    → limit < 2 ^ 20
    → ring < 4
    → (selector : ℕ) × (h : Gdt) × (add_segment base limit code ring g ≡ some (selector, h))
      × (base_of_entry (h.gdt g.current_entry) ≡ base)
      × (limit_of_entry (h.gdt g.current_entry) ≡ limit)
      × ((h.gdt g.current_entry).privilege ≡ ring)
      × ((i : ℕ) → i ≢ g.current_entry → h.gdt i ≡ g.gdt i)
unfolding add_segment
add_segment-entry base limit ring code g room b l r =
    let n : ℕ = g.current_entry in
    let free : (n == 8) ≡ false = ne→== n 8 (omega arith) in
    let here : (n == n) ≡ true = eq→== n n refl in
    (
      bit_or (n * 8) ring,
      record { gdt = put g.gdt n (segment_entry base limit code ring); current_entry = n + 1 },
      rw free refl,
      rw here (omega arith),
      rw here (omega arith),
      rw here (omega arith),
      λ i ne. rw (ne→== n i (λ e. ne (omega arith))) refl,
    )

-- The processor finds the address of a handler in its gate, and every other gate as it was.
idt_set_gate-address :
    (num address selector privilege : ℕ) (idt : ℕ → IdtEntry)
    → address < 2 ^ 32
    → (gate_address (idt_set_gate num address selector privilege idt num) ≡ address)
      × ((i : ℕ) → i ≢ num → idt_set_gate num address selector privilege idt i ≡ idt i)
unfolding idt_set_gate
idt_set_gate-address num address selector privilege idt h =
    (rw (eq→== num num refl) (omega arith), λ i ne. rw (ne→== num i (λ e. ne (omega arith))) refl)
