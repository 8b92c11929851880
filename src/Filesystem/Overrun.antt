-- ===== src/Filesystem/Overrun.antt =====
-- Where the search of `allocate_block` of src/filesystem.c passes over blocks, or past the volume.
use mariobr_os.Base.{
  ℕ, suc, ◌+◌, ◌-◌, ◌*◌, ◌/◌, ◌%◌, ◌^◌, ◌<◌, ◌≡◌, ◌≢◌, ◌∙◌, ap, true, false, ◌||◌, Option, none,
  some, ◌==◌, if◌then◌else◌, leb, is_true, arith, add32, sub32, eq→==, ne→==,
}
use mariobr_os.Memory.{Bytes}
use mariobr_os.Bitset.{all_ones, param_ffb}
use mariobr_os.Bitset.Free.{param_ffb-past_end}
use mariobr_os.Filesystem.Volume.{Fs, mul32, unalloc_block}
use mariobr_os.Filesystem.Groups.{
  bitset_of, find_free_block, block_groups, take_block, search_block, allocate_first,
  allocate_block,
}
use mariobr_os.Filesystem.Bitmaps.{bitmap}
use mariobr_os.Filesystem.Allocation.{from_prec}

step_full :
    (n k pos : ℕ) (s : Fs)
    → is_true (unalloc_block s k) ≡ false
    → find_free_block (suc n) k pos s
      ≡ find_free_block n (k + 1) all_ones (record s { std_buf = bitmap s k s.std_buf })
unfolding find_free_block
step_full n k pos s full = rw (full, find_free_block)

-- A search that comes from a group with no free block starts at position -1 and finds nothing.
after_full :
    (n k : ℕ) (s : Fs)
    → s.spb.block_per_group < 2 ^ 32 - 31
    → is_true (unalloc_block s k) ≡ true
    → find_free_block (suc n) k all_ones s
      ≡ find_free_block n (k + 1) 0 (record s { std_buf = bitmap s k s.std_buf })
unfolding find_free_block
after_full n k s h some_left =
    let p = param_ffb-past_end (bitset_of s.spb.block_per_group (bitmap s k s.std_buf)) h in
    rw (some_left, eq→== _ _ p, find_free_block)
      (ap (λ q. find_free_block n (k + 1) (add32 q 1) (record s { std_buf = bitmap s k s.std_buf }))
        p)

-- A group that follows one with no free block is passed over, whatever its bitmap holds: the search
-- starts in it from position -1.
pub find_free_block_skips :
    (n k pos : ℕ) (s : Fs)
    → s.spb.block_per_group < 2 ^ 32 - 31
    → is_true (unalloc_block s k) ≡ false
    → is_true (unalloc_block s (k + 1)) ≡ true
    → (buffer : Bytes) × (find_free_block (suc (suc n)) k pos s
        ≡ find_free_block n (k + 2) 0 (record s { std_buf = buffer }))
find_free_block_skips n k pos s h full some_left =
    let s1 : Fs = record s { std_buf = bitmap s k s.std_buf } in
    (
      bitmap s (k + 1) (bitmap s k s.std_buf),
      step_full (suc n) k pos s full
          ∙ after_full n (k + 1) s1 h some_left
          ∙ ap
              (λ j.
                find_free_block n j 0
                  (record s { std_buf = bitmap s (k + 1) (bitmap s k s.std_buf) }))
              {x = k + 1 + 1} {y = k + 2} (omega arith),
    )

starts_there :
    (prec : ℕ) (s : Fs)
    → 0 < prec
    → prec < sub32 s.spb.block_num 1
    → ((prec == 0) || leb (sub32 s.spb.block_num 1) prec) ≡ false
starts_there prec s h k = ground arith

-- A search in vain of a last group in which blocks are left ends behind it, at position 0.
vain_search :
    (k pos : ℕ) (s : Fs)
    → is_true (unalloc_block s k) ≡ true
    → param_ffb (bitset_of s.spb.block_per_group (bitmap s k s.std_buf)) pos ≡ all_ones
    → find_free_block 1 k pos s ≡ (k + 1, 0, record s { std_buf = bitmap s k s.std_buf })
unfolding find_free_block
vain_search k pos s some_left vain =
    rw (some_left, eq→== _ _ vain, find_free_block)
      (ap (λ q. (k + 1, add32 q 1, record s { std_buf = bitmap s k s.std_buf })) vain)

search_past_end :
    (prec : ℕ) (s : Fs)
    → block_groups s ≡ prec / s.spb.block_per_group + 1
    → block_groups s * s.spb.block_per_group < 2 ^ 32
    → is_true (unalloc_block s (prec / s.spb.block_per_group)) ≡ true
    → ((buffer : Bytes)
        → param_ffb
            (bitset_of s.spb.block_per_group (bitmap s (prec / s.spb.block_per_group) buffer))
            (prec % s.spb.block_per_group)
          ≡ all_ones)
    → (t : Fs) × (search_block prec s ≡ (some (block_groups s * s.spb.block_per_group), t))
unfolding search_block
search_past_end prec s last fits free vain =
    let k0 : ℕ = prec / s.spb.block_per_group in
    let pos : ℕ = prec % s.spb.block_per_group in
    let s0 : Fs = record s { std_buf = bitmap s k0 s.std_buf } in
    let ends : find_free_block (block_groups s - k0) k0 pos s0
        ≡ (k0 + 1, 0, record s { std_buf = bitmap s k0 (bitmap s k0 s.std_buf) }) =
      ap (λ n. find_free_block n k0 pos s0) {x = block_groups s - k0} {y = 1} (omega arith)
      ∙ vain_search k0 pos s0 free (vain (bitmap s k0 s.std_buf)) in
    let behind : Fs =
      take_block (k0 + 1) 0 (record s { std_buf = bitmap s k0 (bitmap s k0 s.std_buf) }) in
    (
      behind,
      rw ends (
          ap (λ n. (some n, behind)) {x = add32 (mul32 (k0 + 1) s.spb.block_per_group) 0}
            (omega (arith, ap (λ (t : ℕ). t * s.spb.block_per_group) last))),
    )

settled :
    (n prec : ℕ) (t : Fs) (r : Option ℕ × Fs)
    → r ≡ (some n, t)
    → ◌≡◌ {A = Option (ℕ × Fs)}
        (elim (r.0) [
          | some m ↦ some (m, r.1)
          | none ↦ if prec == 1 then none else allocate_first (r.1)
        ])
        (some (n, t))
settled n prec t (some m, u) e = cc
settled n prec t (none, u) e = absurd (cc)

-- Where the last group has free blocks, but none from `prec` on, `allocate_block` hands out the
-- first number behind the volume, although free blocks are left, if group sizes do not wrap around.
pub allocate_block-past_end :
    (prec : ℕ) (s : Fs)
    → s.spb.unalloc_block_num ≢ 0
    → 0 < prec
    → prec < sub32 s.spb.block_num 1
    → block_groups s ≡ prec / s.spb.block_per_group + 1
    → block_groups s * s.spb.block_per_group < 2 ^ 32
    → is_true (unalloc_block s (prec / s.spb.block_per_group)) ≡ true
    → ((buffer : Bytes)
        → param_ffb
            (bitset_of s.spb.block_per_group (bitmap s (prec / s.spb.block_per_group) buffer))
            (prec % s.spb.block_per_group)
          ≡ all_ones)
    → (s' : Fs) × (allocate_block prec s ≡ some (block_groups s * s.spb.block_per_group, s'))
unfolding allocate_block
allocate_block-past_end prec s some_left pos before last fits free vain =
    let (t, e) = search_past_end prec s last fits free vain in
    let starts : from_prec prec s ≡ prec = rw (starts_there prec s pos before) in
    (
      t,
      rw (ne→== s.spb.unalloc_block_num 0 some_left) (
          settled _ (from_prec prec s) t (search_block (from_prec prec s) s)
            (ap (λ q. search_block q s) starts ∙ e)),
    )
