-- ===== src/Paging/Translation.antt =====
-- What the updates of a directory do to the translation of addresses.
use mariobr_os.Base.{
  ℕ, ◌+◌, ◌*◌, ◌/◌, ◌%◌, ◌≡◌, ◌≢◌, refl, Bool, true, false, ◌&&◌, some, if◌then◌else◌, u32_mod,
  arith, Bool-cases, inl, inr, eq→==,
}
use mariobr_os.Paging.{
  Page, Directory, table_index, page_index, page_at, set_page, get_physical_address,
  make_page_table, with_table, with_rights, get_page,
}

-- Another page.
abbrev pub Elsewhere : ℕ → ℕ → Type 0
Elsewhere a b = a / 0x1000 ≢ b / 0x1000

-- What `get_page` leaves: the table is there, and every address translates as before.
pub record Ready (dir : Directory) (address : ℕ) (d : Directory) : Type 0 where
  pub there : (d.entries (table_index address)).present ≡ true
  pub same : (a : ℕ) → get_physical_address d a ≡ get_physical_address dir a
  pub page :
      (page_at d address).present
      ≡ ((dir.entries (table_index address)).present && (page_at dir address).present)

pub with_table-Ready :
    (frame : ℕ) (dir : Directory) (address : ℕ) (k w : Bool)
    → (dir.entries (table_index address)).present ≡ false
    → Ready dir address (with_table frame dir (table_index address) k w)
unfolding get_physical_address
with_table-Ready frame dir address k w e = record {
  there = ground arith;
  same = λ a. ground arith;
  page = ground arith;
}

pub with_rights-Ready :
    (dir : Directory) (address : ℕ) (k w : Bool)
    → (dir.entries (table_index address)).present ≡ true
    → Ready dir address (with_rights dir (table_index address) k w)
unfolding get_physical_address
with_rights-Ready dir address k w e = record {
  there = ground arith;
  same = λ a. ground arith;
  page = ground arith;
}

pub get_page-Ready :
    (frame : ℕ) (dir : Directory) (address : ℕ) (k w : Bool)
    → dir.made (table_index address) ≡ (dir.entries (table_index address)).present
    → (d : Directory) × (get_page frame dir address k w ≡ some d) × Ready dir address d
unfolding get_page make_page_table
get_page-Ready frame dir address k w h =
    elim (Bool-cases (dir.entries (table_index address)).present) [
      | inl e ↦ (
        with_rights dir (table_index address) k w,
        rw e refl,
        with_rights-Ready dir address k w e,
      )
      | inr e ↦ (
        with_table frame dir (table_index address) k w,
        rw (h, e) refl,
        with_table-Ready frame dir address k w e,
      )
    ]

pub set_page-Elsewhere :
    (dir : Directory) (address : ℕ) (p : Page) (a : ℕ)
    → Elsewhere address a
    → get_physical_address (set_page dir address p) a ≡ get_physical_address dir a
unfolding get_physical_address
set_page-Elsewhere dir address p a ne = ground arith

pub set_page-here :
    (dir : Directory) (address : ℕ) (p : Page) (a : ℕ)
    → address / 0x1000 ≡ a / 0x1000
    → (dir.entries (table_index address)).present ≡ true
    → get_physical_address (set_page dir address p) a
      ≡ (if p.present then (0x1000 * p.address + a % 0x1000) % u32_mod else 0)
unfolding get_physical_address
set_page-here dir address p a same e = ground arith

-- The page of a directory in which it was set.
page_at-set_page :
    (dir : Directory) (address : ℕ) (p : Page) → page_at (set_page dir address p) address ≡ p
page_at-set_page dir address p =
    rw
      (
        eq→== (table_index address) (table_index address) refl,
        eq→== (page_index address) (page_index address) refl,
      )
      refl
