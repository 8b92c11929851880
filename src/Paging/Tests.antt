-- ===== src/Paging/Tests.antt =====
-- Concrete requests: an empty directory, and 32 frames of which the first one is used.
use mariobr_os.Base.{
  ℕ, ◌+◌, ◌*◌, ◌/◌, ◌^◌, ◌<◌, ◌≤◌, ◌≡◌, ◌≢◌, refl, Bool, true, false, ◌&&◌, Option, none, some,
  if◌then◌else◌, ◌==◌, [], ◌∷◌, arith, inl, inr, ◌∙◌, Bool-cases, ==→eq, ==→ne,
}
use mariobr_os.Bitset.{Bitset, first_false_bit, first_false_from, find_zero, get_bit, set_bit}
use mariobr_os.Paging.{
  request_physical_space, get_page, make_page_table, map_fresh, map_page, map_page_to_frame,
  map_physical, find_unmapped_page, unmapped_from, free_page, Directory, get_physical_address,
  request_virtual_space, free_virtual_space, set_page, page_at,
}
use mariobr_os.Paging.Translation.{set_page-Elsewhere}
use mariobr_os.Paging.Spaces.{
  Spaces, clone_directory, new_page_dir, clone_loop, clone_pass, link_tables, request_code,
  request_user,
}
use mariobr_os.Paging.Passes.{Kept, IsGrowth}
use mariobr_os.Paging.Cloning.{clone_directory-Kept}
use mariobr_os.Paging.Install.{paging_install}
use mariobr_os.Paging.Start.{MapsTo, EmptyFrom, IsFirstFree, paging_install-MapsTo}
use mariobr_os.Paging.Creation.{new_page_dir-get_physical_address}

abbrev frames : Bitset
frames = record { bits = 1 ∷ []; length = 32 }

abbrev empty : Directory
empty = record {
  entries = λ t. record { present = false; rw = false; user = false; address = 0 };
  made = λ t. false;
  tables = λ t i. record { present = false; rw = false; user = false; address = 0 };
}

-- The base directory maps the page at 0x1000, with its table at frame 7.
abbrev base : Directory
base = record {
  entries = λ t. record { present = t == 0; rw = false; user = true; address = 7 };
  made = λ t. t == 0;
  tables = λ t i. record { present = (t == 0) && (i == 1); rw = false; user = false; address = 1 };
}

-- An allocation that maps the page of `v` for the kernel's heap, when it is free.
abbrev heap_page : ℕ → ℕ → Directory → Directory
heap_page v n d =
    if (page_at d v).present
    then d
    else set_page d v (record { present = true; rw = true; user = false; address = v / 0x1000 })

free_at :
    (d : Directory) (v a : ℕ)
    → (page_at d v).present ≡ false
    → v / 0x1000 ≡ a / 0x1000
    → get_physical_address d a ≡ 0
unfolding get_physical_address
free_at d v a free s = ground arith

heap_page-IsGrowth : (v : ℕ) → IsGrowth (heap_page v)
heap_page-IsGrowth v = record {
  kept = λ n d a m. elim (Bool-cases ((page_at d v).present)) [
    | inl e ↦ rw e refl
    | inr e ↦ elim (Bool-cases (v / 0x1000 == a / 0x1000)) [
      | inl s ↦ absurd (m (free_at d v a e (==→eq _ _ s)))
      | inr s ↦ rw e (set_page-Elsewhere d v _ a (==→ne _ _ s))
    ]
  ];
  tables =
      λ n d i. elim (Bool-cases ((page_at d v).present)) [ inl e ↦ rw e refl | inr e ↦ rw e refl ];
}

heap_page-EmptyFrom :
    (v limit n : ℕ) (d : Directory)
    → v < limit / 0x1000 * 0x1000
    → EmptyFrom limit d
    → EmptyFrom limit (heap_page v n d)
heap_page-EmptyFrom v limit n d h empty a lt hi = elim (Bool-cases ((page_at d v).present)) [
  | inl e ↦ rw e (empty a lt hi)
  | inr e ↦ rw e (set_page-Elsewhere d v _ a (λ s. absurd (omega (arith, s))) ∙ empty a lt hi)
]

clone_directory-Kept_example :
    (copy d : Directory) × (clone_directory 2 (heap_page 0x2000) (λ i. i + 8) base ≡ some (copy, d))
    × Kept base d
    × ((a : ℕ)
        → a < 2 ^ 32
        → get_physical_address base a ≢ 0
        → get_physical_address copy a ≡ get_physical_address base a)
    × Kept copy d
clone_directory-Kept_example =
    clone_directory-Kept 0 (heap_page 0x2000) (λ i. i + 8) base (heap_page-IsGrowth 0x2000)

abbrev spaces : Spaces
spaces = record { current = base; base = base; frames = record { bits = 3 ∷ []; length = 32 } }

present_in : {A : Type 0} (r : Option A) → Bool
present_in none = false
present_in (some a) = true

result_of : {A : Type 0} (r : Option A) → present_in r ≡ true → (a : A) × (r ≡ some a)
unfolding present_in
result_of none h = absurd (cc)
result_of (some a) h = (a, refl)

created : present_in (new_page_dir 2 (λ i. i + 8) 0xfffe_fffc 0x2000 spaces) ≡ true
unfolding present_in new_page_dir clone_directory clone_loop clone_pass link_tables request_code
    request_user request_virtual_space request_physical_space free_virtual_space get_page
    make_page_table map_fresh map_page map_page_to_frame map_physical find_unmapped_page
    unmapped_from get_physical_address free_page first_false_bit first_false_from find_zero set_bit
    mariobr_os.Bitset.get_bit
created = refl

abbrev creation :
    (r : Directory × Spaces) × (new_page_dir 2 (λ i. i + 8) 0xfffe_fffc 0x2000 spaces ≡ some r)
creation = result_of (new_page_dir 2 (λ i. i + 8) 0xfffe_fffc 0x2000 spaces) created

maps_page : get_physical_address base 0x1234 ≢ 0
unfolding get_physical_address
maps_page e = absurd (omega (arith, e))

new_page_dir-get_physical_address_example :
    get_physical_address creation.0.0 0x1234 ≡ get_physical_address base 0x1234
new_page_dir-get_physical_address_example =
    new_page_dir-get_physical_address 0 (λ i. i + 8) 0xfffe_fffc 0x2000 spaces creation.0.1
      creation.0.0 creation.1 0x1234 (omega arith) maps_page

-- The kernel's heap grows by the page behind it while the directory is cloned, and takes its frame.
paging_install-MapsTo_example :
    (t : Spaces) × (heap : ℕ) × (paging_install 0x100_0000 0x15_3800 0x151
        (λ i. i + 8)
        (heap_page 0x15_4000)
        (λ fs. set_bit fs 0x154 1)
      ≡ some (t, heap))
    × MapsTo t.current 0x15_3800
    × MapsTo t.base 0x15_3800
    × Kept t.base t.current
    × IsFirstFree t.base 0x1000 heap
    × (0x15_3800 ≤ heap)
paging_install-MapsTo_example =
    paging_install-MapsTo 0x100_0000 0x15_3800 0x15_5000 0x151 (λ i. i + 8) (heap_page 0x15_4000)
      (λ fs. set_bit fs 0x154 1) (omega arith) (omega arith) (omega arith) (omega arith)
      (omega arith) (heap_page-IsGrowth 0x15_4000)
      (λ n d e. heap_page-EmptyFrom 0x15_4000 0x15_5000 n d (omega arith) e)
