-- ===== src/Paging/Start.antt =====
-- What `paging_install` of src/paging.c leaves.
use mariobr_os.Bitset.{Bitset}
use mariobr_os.Base.{
  ◌≢◌, ◌==◌, ==→eq, ==→ne, sym, subst, ℕ, zero, suc, ◌+◌, ◌-◌, ◌*◌, ◌/◌, ◌%◌, ◌^◌, ◌≤◌, ◌<◌, ◌≡◌,
  ◌∙◌, inl, inr, refl, ap, true, false, Option, some, is_true, ltb, arith, add32, Bool-cases,
  ltb→lt, ltb→le, ◌>>=◌,
}
use mariobr_os.Math.{ceil_ratio}
use mariobr_os.Math.Rounding.{ceil_ratio_bounds}
use mariobr_os.Paging.{Page, Directory, table_index, get_physical_address}
use mariobr_os.Paging.Spaces.{Spaces, zero_directory, clone_directory, user_heap_from}
use mariobr_os.Paging.Passes.{IsGrowth, Kept}
use mariobr_os.Paging.Cloning.{clone_directory-Kept, clone_directory_keeps}
use mariobr_os.Paging.Install.{kernel_tables, initial_frames, identity_map, paging_install}
use mariobr_os.Paging.Identity.{IsFresh, identity_map-IsIdentity}

kernel_tables-there : (n tf t : ℕ) → t < n → ((kernel_tables n tf).entries t).present ≡ true
unfolding kernel_tables
kernel_tables-there zero tf t h = absurd (omega arith)
kernel_tables-there (suc n) tf t h = ground (arith, kernel_tables-there n tf t)

kernel_tables-tables : (n tf : ℕ) → (kernel_tables n tf).tables ≡ zero_directory.tables
unfolding kernel_tables
kernel_tables-tables zero tf = refl
kernel_tables-tables (suc n) tf = kernel_tables-tables n tf

kernel_tables-IsFresh : (n tf : ℕ) → IsFresh (kernel_tables n tf) 1 (1024 * n)
kernel_tables-IsFresh n tf = record {
  there = λ a h. kernel_tables-there n tf (table_index a) (omega arith);
  absent = λ a h.
      ap (λ (t : ℕ → ℕ → Page). (t (table_index a) (a / 0x1000 % 1024)).present)
        (kernel_tables-tables n tf);
}

no_page : (n tf a : ℕ) → 1 ≤ a / 0x1000 → get_physical_address (kernel_tables n tf) a ≡ 0
unfolding get_physical_address
no_page n tf a h = ground (arith, (kernel_tables-IsFresh n tf).absent a h)

-- The memory from the second page to the page that `end` lies in is mapped to itself.
abbrev pub MapsTo : Directory → ℕ → Type 0
MapsTo dir end = (a : ℕ) → 0x1000 ≤ a → a / 0x1000 * 0x1000 < end → get_physical_address dir a ≡ a

-- No page from `limit` on is mapped.
abbrev pub EmptyFrom : ℕ → Directory → Type 0
EmptyFrom limit dir =
    (a : ℕ) → a < 2 ^ 32 → limit ≤ a / 0x1000 * 0x1000 → get_physical_address dir a ≡ 0

-- `heap` is the first page from the second one on that is not mapped.
pub record IsFirstFree (dir : Directory) (v heap : ℕ) : Type 0 where
  pub aligned : heap % 0x1000 ≡ 0
  pub free : get_physical_address dir heap ≡ 0
  pub first : (a : ℕ) → v ≤ a → a < heap → a % 0x1000 ≡ 0 → get_physical_address dir a ≢ 0

is_true-zero : (n : ℕ) → is_true n ≡ false → n ≡ 0
is_true-zero zero h = refl
is_true-zero (suc n) h = absurd (cc)

is_true-suc : (n : ℕ) → is_true n ≡ true → n ≢ 0
is_true-suc n h z = absurd (cc (rw z at h))

user_heap_from-IsFirstFree :
    (m v limit : ℕ) (base : Directory)
    → EmptyFrom limit base
    → v % 0x1000 ≡ 0
    → v < limit + 0x1000
    → limit + 0x1000 ≤ v + 0x1000 * m
    → limit < 2 ^ 32 - 0x1000
    → (heap : ℕ) × (user_heap_from m base v ≡ some heap) × IsFirstFree base v heap × (v ≤ heap)
unfolding user_heap_from
user_heap_from-IsFirstFree zero v limit base empty al near fuel small = absurd (omega arith)
user_heap_from-IsFirstFree (suc m) v limit base empty al near fuel small =
    elim (Bool-cases (is_true (get_physical_address base v))) [
      | inl more ↦
          let used : get_physical_address base v ≢ 0 = is_true-suc _ more in
          let lt : v < limit = elim (Bool-cases (ltb v limit)) [
            | inl e ↦ ltb→lt v limit e
            | inr e ↦ absurd (used (empty v (omega arith) (omega (arith, ltb→le v limit e))))
          ] in
          let (heap, e, f, le) =
            user_heap_from-IsFirstFree m (add32 v 0x1000) limit base empty (omega arith)
              (omega arith) (omega arith) small in
          (
            heap,
            rw (more, user_heap_from) e,
            record {
              aligned = f.aligned;
              free = f.free;
              first = λ a lo hi round. elim (Bool-cases (a == v)) [
                | inl k ↦ subst (λ b. get_physical_address base b ≢ 0) (sym (==→eq a v k)) used
                | inr k ↦ f.first a (omega (arith, ==→ne a v k)) hi round
              ];
            },
            omega (arith, le),
          )
      | inr done ↦ (
        v,
        rw (done, user_heap_from) refl,
        record {
          aligned = al;
          free = is_true-zero _ done;
          first = λ a lo hi round. absurd (omega arith);
        },
        omega arith,
      )
    ]

bind_some : {A B : Type 0} (r : Option A) (f : A → Option B) (a : A) → r ≡ some a → (r >>= f) ≡ f a
bind_some r f a e = ap (λ x. x >>= f) e

-- An address that is mapped in the copy is mapped in the directory.
empty_copy :
    (limit : ℕ) (copy d : Directory) → Kept copy d → EmptyFrom limit d → EmptyFrom limit copy
empty_copy limit copy d kept empty a lt hi =
    elim (Bool-cases (is_true (get_physical_address copy a))) [
      | inl e ↦ absurd (is_true-suc _ e (sym (kept a (is_true-suc _ e)) ∙ empty a lt hi))
      | inr e ↦ is_true-zero _ e
    ]

-- What `paging_install` leaves, where the kernel's heap ends at `end` before the clone and below
-- `limit` after it: the kernel's directory and the base directory map the memory from the second
-- page to the page that `end` lies in to itself; the kernel's directory maps what the base directory
-- does, at the same place; and the heaps of the processes start at the first page that the base
-- directory does not map, which is not below `end`. This holds for a memory of 32 bits, an `end`
-- behind the first page that lies in its whole pages, a `limit` that is not below `end` and more than
-- a page below 2 ^ 32, and for allocations that keep what is mapped, make no table, and map nothing
-- from `limit` on.
pub paging_install-MapsTo :
    (upper_memory end limit tables_frame : ℕ) (table_frame : ℕ → ℕ)
    (grow : ℕ → Directory → Directory) (taken : Bitset → Bitset)
    → upper_memory < 2 ^ 32
    → 0x1000 < end
    → end ≤ upper_memory / 0x1000 * 0x1000
    → end ≤ limit
    → limit < 2 ^ 32 - 0x1000
    → IsGrowth grow
    → ((n : ℕ) (d : Directory) → EmptyFrom limit d → EmptyFrom limit (grow n d))
    → (t : Spaces) × (heap : ℕ) × (paging_install upper_memory end tables_frame table_frame grow
          taken
        ≡ some (t, heap))
      × MapsTo t.current end
      × MapsTo t.base end
      × Kept t.base t.current
      × IsFirstFree t.base 0x1000 heap
      × (end ≤ heap)
unfolding paging_install
paging_install-MapsTo upper_memory end limit tables_frame table_frame grow taken upper pos fits ends
      small g below =
    let nb : ℕ = ceil_ratio (upper_memory / 0x1000) 1024 in
    let start : Directory = kernel_tables nb tables_frame in
    let enough = ceil_ratio_bounds (upper_memory / 0x1000) 1024 (omega arith) (omega arith) in
    let (kernel, frames, e1, (inside, outside)) =
      identity_map-IsIdentity (2 ^ 20) 0x1000 1 end (1024 * nb) start (initial_frames upper_memory)
        (kernel_tables-IsFresh nb tables_frame) (omega arith) (omega arith)
        (omega (arith, enough.0)) (omega arith) (omega arith) (omega arith) in
    let (base, grown, e2, kept, old, new) = clone_directory-Kept 0 grow table_frame kernel g in
    let unmapped : EmptyFrom limit kernel =
      λ a lt hi. outside a (inr (omega arith)) ∙ no_page nb tables_frame a (omega arith) in
    let kernel_maps : MapsTo kernel end = λ a lo hi. inside a (omega arith) hi in
    let mapped : (a : ℕ)
        → 0x1000 ≤ a
        → a / 0x1000 * 0x1000 < end
        → get_physical_address kernel a ≢ 0 =
      λ a lo hi z. absurd (omega (arith, kernel_maps a lo hi, z)) in
    let grown_maps : MapsTo grown end = λ a lo hi. kept a (mapped a lo hi) ∙ kernel_maps a lo hi in
    let base_maps : MapsTo base end =
      λ a lo hi. old a (omega arith) (mapped a lo hi) ∙ kernel_maps a lo hi in
    let base_empty : EmptyFrom limit base = empty_copy limit base grown new (
      clone_directory_keeps grow (EmptyFrom limit) below 0 table_frame kernel base grown g e2
        unmapped) in
    let (heap, e3, free, from) =
      user_heap_from-IsFirstFree (2 ^ 20) 0x1000 limit base base_empty (omega arith) (omega arith)
        (omega arith) small in
    let past : end ≤ heap = elim (Bool-cases (ltb heap end)) [
      | inl e ↦
          absurd
            (omega (arith, from, free.free, base_maps heap from (omega (arith, ltb→lt heap end e))))
      | inr e ↦ ltb→le heap end e
    ] in
    (
      record { current = grown; base = base; frames = taken frames },
      heap,
      bind_some (identity_map (2 ^ 20) 0x1000 end start (initial_frames upper_memory)) _
            (kernel, frames) e1
          ∙ bind_some (clone_directory 2 grow table_frame kernel) _ (base, grown) e2
          ∙ bind_some (user_heap_from (2 ^ 20) base 0x1000) _ heap e3,
      grown_maps,
      base_maps,
      new,
      free,
      past,
    )
