-- ===== src/Paging/Cloning.antt =====
-- `clone_directory` of src/paging.c: how the copy translates addresses.
use mathlib.Core.Option.{some-injective}
use mariobr_os.Base.{
  ℕ, zero, suc, ◌^◌, ◌<◌, ◌≡◌, ◌≢◌, ◌∙◌, inl, inr, refl, ap, sym, subst, Bool, some, arith,
  Bool-cases,
}
use mariobr_os.Paging.{Directory, table_index, page_at, get_physical_address}
use mariobr_os.Paging.Spaces.{zero_directory, clone_pass, link_tables, clone_directory}
use mariobr_os.Paging.Passes.{Kept, Kept-trans, IsGrowth, missing, first_pass, clone_loop_ends}

module _ (table_frame : ℕ → ℕ) (dir c : Directory) where
  link_tables-present :
      (n i : ℕ) → ((link_tables n table_frame dir c).entries i).present ≡ (c.entries i).present
  unfolding link_tables
  link_tables-present zero i = refl
  link_tables-present (suc n) i = ground (arith, link_tables-present n i)

  link_tables-tables : (n : ℕ) → (link_tables n table_frame dir c).tables ≡ c.tables
  unfolding link_tables
  link_tables-tables zero = refl
  link_tables-tables (suc n) = ground (arith, link_tables-tables n)

  link_tables-get_physical_address :
      (n a : ℕ)
      → get_physical_address (link_tables n table_frame dir c) a ≡ get_physical_address c a
  unfolding get_physical_address
  link_tables-get_physical_address n a =
      rw (link_tables-present n (table_index a), page_at, link_tables-tables n) refl

-- A directory is cloned with fuel for two searches, while the allocations of the copy map pages in
-- the directory, keep what is mapped there, and make no table. The copy has every address of 32 bits
-- that was mapped at the start, at its place, and no address that the directory does not map in the
-- end to the same place; what was mapped stays so in the directory.
pub clone_directory-Kept :
    (n : ℕ) (grow : ℕ → Directory → Directory) (table_frame : ℕ → ℕ) (dir : Directory)
    → IsGrowth grow
    → (copy d : Directory) × (clone_directory (suc (suc n)) grow table_frame dir ≡ some (copy, d))
      × Kept dir d
      × ((a : ℕ)
          → a < 2 ^ 32
          → get_physical_address dir a ≢ 0
          → get_physical_address copy a ≡ get_physical_address dir a)
      × Kept copy d
unfolding clone_directory
clone_directory-Kept n grow table_frame dir g =
    let start : Directory = grow 1024 dir in
    let c : Directory = (clone_pass 1024 grow start zero_directory).1 in
    let d : Directory = (clone_pass 1024 grow start zero_directory).2 in
    let state = first_pass 1024 grow start g in
    let link = link_tables-get_physical_address table_frame d c 1024 in
    let begun = g.kept 1024 dir in
    (
      link_tables 1024 table_frame d c,
      d,
      rw (clone_directory, clone_loop_ends n grow start g) refl,
      Kept-trans dir start d begun state.kept,
      λ a h m. link a ∙ state.old a (omega arith) (λ z. m (sym (begun a m) ∙ z)) ∙ begun a m,
      λ a m. state.new a (λ z. m (link a ∙ z)) ∙ sym (link a),
    )

module _ (grow : ℕ → Directory → Directory) (P : Directory → Type 0)
    (keeps : (n : ℕ) (d : Directory) → P d → P (grow n d)) where
  clone_pass_keeps : (n : ℕ) (dir c : Directory) → P dir → P (clone_pass n grow dir c).2
  unfolding clone_pass
  clone_pass_keeps zero dir c p = p
  clone_pass_keeps (suc t) dir c p =
      let rest = clone_pass_keeps t dir c p in
      let r : Bool × Directory × Directory = clone_pass t grow dir c in
      elim (Bool-cases (missing t r.2 r.1)) [
        | inl e ↦ rw (e, clone_pass) (keeps t r.2 rest)
        | inr e ↦ rw (e, clone_pass) rest
      ]

  -- What every allocation keeps holds of the directory in the end.
  pub clone_directory_keeps :
      (n : ℕ) (table_frame : ℕ → ℕ) (dir copy d : Directory)
      → IsGrowth grow
      → clone_directory (suc (suc n)) grow table_frame dir ≡ some (copy, d)
      → P dir
      → P d
  unfolding clone_directory
  clone_directory_keeps n table_frame dir copy d g e p =
      let start : Directory = grow 1024 dir in
      let ends = clone_loop_ends n grow start g in
      let q : clone_directory (suc (suc n)) grow table_frame dir
          ≡ some (
            link_tables 1024 table_frame (clone_pass 1024 grow start zero_directory).2
                (clone_pass 1024 grow start zero_directory).1,
            (clone_pass 1024 grow start zero_directory).2,
          ) =
        rw (clone_directory, ends) refl in
      subst P (ap (λ (r : Directory × Directory). r.1) (some-injective _ _ (sym q ∙ e)))
        (clone_pass_keeps 1024 start zero_directory (keeps 1024 dir p))
