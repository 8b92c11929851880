-- ===== src/Filesystem/Allocation.antt =====
-- `allocate_block` of src/filesystem.c: which blocks it hands out.
use native.Mathlib.Nat.{mod-lt, div-lt_iff_lt-mul, div-add-mod', add-mul}
use mariobr_os.Base.{
  ℕ, zero, suc, ◌+◌, ◌-◌, ◌/◌, ◌%◌, ◌^◌, ◌≤◌, ◌<◌, ◌≡◌, ◌≢◌, ◌⊎◌, inl, inr, ap, sym, ◌∙◌, ◌*◌, zero,
  suc, false, ◌||◌, Option, none, some, ◌==◌, if◌then◌else◌, leb, arith, add32, sub32, Bool-cases,
  ==→ne, ne→==, subst,
}
use mariobr_os.Memory.{Bytes}
use mariobr_os.Base.Bits.{bit}
use mariobr_os.Disk.{sectors}
use mariobr_os.Bitset.{all_ones, get_bit}
use mariobr_os.Filesystem.Volume.{Fs, mul32}
use mariobr_os.Filesystem.Groups.{
  bitset_of, find_free_block, block_groups, take_block, search_block, allocate_first,
  allocate_block,
}
use mariobr_os.Filesystem.Bitmaps.{
  bitmap, bitmap_bit, FoundBlock, find_free_block-FoundBlock, find_free_block-buffer,
  get_bit-load32, bitmap-load32,
}

-- A block that is handed out: a block of a group, whose bit was not set in the bitmap of the group.
abbrev pub Handed : Fs → ℕ → Type 0
Handed s n =
    (k : ℕ) × (pos : ℕ) × (n ≡ k * s.spb.block_per_group + pos)
    × (k < block_groups s)
    × (pos < s.spb.block_per_group)
    × (bitmap_bit s k pos ≡ 0)

-- The number behind the last group.
abbrev pub Beyond : Fs → ℕ → Type 0
Beyond s n = n ≡ block_groups s * s.spb.block_per_group

-- A volume whose blocks have numbers of 32 bits, and whose bitmaps fit a block.
pub record IsVolume (s : Fs) : Type 0 where
  pub group : 1 < s.spb.block_per_group
  pub numbers : block_groups s * s.spb.block_per_group < 2 ^ 32
  pub bitmap_fits : s.spb.block_per_group ≤ 4096 * sectors s.block_factor

abbrev Outcome : Fs → Option ℕ × Fs → Type 0
Outcome s (some n, s') = Handed s n ⊎ Beyond s n
Outcome s (none, s') = (buffer : Bytes) × (s' ≡ record s { std_buf = buffer })

in_group :
    (k groups size pos : ℕ)
    → k < groups
    → pos < size
    → groups * size < 2 ^ 32
    → add32 (mul32 k size) pos ≡ k * size + pos
in_group k groups size pos h p v =
    let d : ℕ = groups - (k + 1) in
    let e : groups * size ≡ (k + 1 + d) * size = ap (λ x. x * size) (omega arith) in
    omega (arith, e, add-mul (k + 1) d size, add-mul k 1 size, v)

small_group : (s : Fs) → IsVolume s → s.spb.block_per_group < 2 ^ 32
small_group s v = omega (arith, v.bitmap_fits)

search_ends :
    (s : Fs) (r : ℕ × ℕ × Fs)
    → IsVolume s
    → FoundBlock s (block_groups s) r
    → ((buffer : Bytes) × (r.2 ≡ record s { std_buf = buffer }))
    → Outcome s (
        if r.1 == all_ones
        then (none, r.2)
        else (some (add32 (mul32 (r.0) s.spb.block_per_group) (r.1)), take_block (r.0) (r.1) (r.2)))
search_ends s r v f b = elim (Bool-cases (r.1 == all_ones)) [
  | inl e ↦ rw e b
  | inr e ↦ rw e (elim f [
    | inl (k, p, (buffer, same), free) ↦
        let m = bitmap s (r.0) buffer in
        let clear = get_bit-load32 s.spb.block_per_group (r.1) m p (
          subst (λ (t : Fs). get_bit (bitset_of s.spb.block_per_group t.std_buf) (r.1) ≡ false) same
            free) in
        let on_disk =
          bitmap-load32 s (r.0) (4 * (r.1 / 32)) buffer (omega (arith, v.bitmap_fits, p)) in
        inl (
          r.0,
          r.1,
          in_group (r.0) (block_groups s) s.spb.block_per_group (r.1) k p v.numbers,
          k,
          p,
          ap (λ w. bit w (r.1 % 32)) (sym on_disk) ∙ clear,
        )
    | inr (last, inr full) ↦ absurd (==→ne _ _ e full)
    | inr (last, inl first) ↦
        inr (omega (arith, v.numbers, ap (λ k. k * s.spb.block_per_group) last, first))
  ])
]

search_block-Outcome :
    (prec : ℕ) (s : Fs)
    → IsVolume s
    → prec / s.spb.block_per_group < block_groups s
    → Outcome s (search_block prec s)
unfolding search_block
search_block-Outcome prec s v g =
    let k0 : ℕ = prec / s.spb.block_per_group in
    let s0 : Fs = record s { std_buf = bitmap s k0 s.std_buf } in
    let r : ℕ × ℕ × Fs =
      find_free_block (block_groups s - k0) k0 (prec % s.spb.block_per_group) s0 in
    search_ends s r v
      (subst (λ g. FoundBlock s g r) {x = k0 + (block_groups s - k0)} (omega arith)
        (find_free_block-FoundBlock (block_groups s - k0) k0 (prec % s.spb.block_per_group) s0
          (small_group s v) (inl (omega arith))))
      (find_free_block-buffer (block_groups s - k0) k0 (prec % s.spb.block_per_group) s0)

div_mono : (a c b : ℕ) → a ≤ c → a / b ≤ c / b
div_mono a c zero h = omega arith
div_mono a c (suc b) h =
    let pos : 0 < suc b = omega arith in
    let below : a / suc b < c / suc b + 1 =
      (div-lt_iff_lt-mul pos).1
        (omega (arith, div-add-mod' c (suc b), mod-lt c pos, add-mul (c / suc b) 1 (suc b))) in
    omega arith

before_last : (a c : ℕ) → ((a == 0) || leb c a) ≡ false → a ≤ c
before_last a c h = ground arith

-- Where a call starts.
abbrev pub from_prec : ℕ → Fs → ℕ
from_prec prec s = if (prec == 0) || leb (sub32 s.spb.block_num 1) prec then 1 else prec

from_prec-group :
    (prec : ℕ) (s : Fs)
    → 1 < s.spb.block_per_group
    → from_prec prec s / s.spb.block_per_group < block_groups s
from_prec-group prec s big =
    let size : ℕ = s.spb.block_per_group in
    let big0 : 0 < size = omega arith in
    let one : 1 / size < 1 = (div-lt_iff_lt-mul big0).1 (omega arith) in
    elim (Bool-cases ((prec == 0) || leb (sub32 s.spb.block_num 1) prec)) [
      | inl e ↦ rw e (omega (arith, one))
      | inr e ↦
          rw e (omega (arith, div_mono prec (sub32 s.spb.block_num 1) size (before_last prec _ e)))
    ]

with_buffer : (s : Fs) (buffer : Bytes) → IsVolume s → IsVolume (record s { std_buf = buffer })
with_buffer s buffer v = record {
  group = v.group;
  numbers = v.numbers;
  bitmap_fits = v.bitmap_fits;
}

from_first :
    (n : ℕ) (s s' : Fs) (r : Option ℕ × Fs)
    → Outcome s r
    → ◌≡◌ {A = Option (ℕ × Fs)} (elim (r.0) [ some m ↦ some (m, r.1) | none ↦ none ]) (some (n, s'))
    → Handed s n ⊎ Beyond s n
from_first n s s' (some m, t) o e = subst (λ k. Handed s k ⊎ Beyond s k) (cc) o
from_first n s s' (none, t) o e = absurd (cc)

from_search :
    (n : ℕ) (s : Fs) (prec : ℕ) (s' : Fs) (r : Option ℕ × Fs)
    → IsVolume s
    → Outcome s r
    → ◌≡◌ {A = Option (ℕ × Fs)}
        (elim (r.0) [
          | some m ↦ some (m, r.1)
          | none ↦ if prec == 1 then none else allocate_first (r.1)
        ])
        (some (n, s'))
    → Handed s n ⊎ Beyond s n
unfolding allocate_first
from_search n s prec s' (some m, t) h o e = subst (λ k. Handed s k ⊎ Beyond s k) (cc) o
from_search n s prec s' (none, t) h (buffer, same) e = elim (Bool-cases (prec == 1)) [
  | inl one ↦ absurd (cc (rw one at e))
  | inr more ↦
      let s1 : Fs = record s { std_buf = buffer } in
      let again = subst (λ u. allocate_first u ≡ some (n, s')) same (rw more at e) in
      from_first n s1 s' (search_block 1 s1)
        (search_block-Outcome 1 s1 (with_buffer s buffer h) (from_prec-group 0 s h.group)) again
]

-- `allocate_block` hands out a block of a group whose bit was not set in the bitmap of its group on
-- the drive, or the one number behind the last group, if it returns and counts some block as free, on
-- a volume with groups of at least two blocks, numbers of 32 bits, and bitmaps that fit a block.
pub allocate_block-Handed :
    (prec n : ℕ) (s s' : Fs)
    → IsVolume s
    → s.spb.unalloc_block_num ≢ 0
    → (allocate_block prec s ≡ some (n, s'))
    → Handed s n ⊎ Beyond s n
unfolding allocate_block allocate_first
allocate_block-Handed prec n s s' v some_left e =
    let rest = rw (ne→== s.spb.unalloc_block_num 0 some_left) at e in
    from_search n s (from_prec prec s) s' (search_block (from_prec prec s) s) v
      (search_block-Outcome (from_prec prec s) s v (from_prec-group prec s v.group)) rest
