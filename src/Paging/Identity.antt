-- ===== src/Paging/Identity.antt =====
-- The loop of `paging_install` of src/paging.c that maps the kernel's memory to itself.
use mariobr_os.Base.{
  ℕ, zero, suc, ◌+◌, ◌-◌, ◌*◌, ◌/◌, ◌^◌, ◌≤◌, ◌<◌, ◌≡◌, ◌≢◌, ◌∙◌, ◌⊎◌, inl, inr, refl, ap, true,
  false, Option, none, some, ◌==◌, ltb, leb, arith, add32, Bool-cases, ne→==, ==→eq, ==→ne, ltb→lt,
  ltb→le,
}
use mariobr_os.Bitset.{Bitset, set_bit}
use mariobr_os.Paging.{
  Page, Directory, table_index, page_at, set_page, get_physical_address, get_page,
  map_page_to_frame, with_rights,
}
use mariobr_os.Paging.Translation.{Ready, with_rights-Ready, set_page-Elsewhere, set_page-here}
use mariobr_os.Paging.Install.{map_itself, identity_map}

-- From page `i` on nothing is mapped, and the tables are there up to the page `n`.
pub record IsFresh (dir : Directory) (i n : ℕ) : Type 0 where
  pub there : (a : ℕ) → a / 0x1000 < n → (dir.entries (table_index a)).present ≡ true
  pub absent : (a : ℕ) → i ≤ a / 0x1000 → (page_at dir a).present ≡ false

-- A page that is mapped to itself.
abbrev itself : Page → ℕ → Page
itself page i = record page { present = true; rw = false; user = false; address = i }

abbrev identity_step : Directory → ℕ → Directory
identity_step dir v =
    let d = with_rights dir (table_index v) true false in
    set_page d v (itself (page_at dir v) (v / 0x1000))

module _ (dir : Directory) (v i n : ℕ) (f : IsFresh dir i n) (pos : 0 < i) (lt : i < n)
    (small : i < 0x100000) (e : v / 0x1000 ≡ i) where
  got : get_page 0 dir v true false ≡ some (with_rights dir (table_index v) true false)
  unfolding get_page
  got = rw (f.there v (omega arith)) refl

  entered :
      (frames : Bitset)
      → map_page_to_frame (page_at dir v) (v / 0x1000) true false frames
        ≡ some (itself (page_at dir v) (v / 0x1000), set_bit frames (v / 0x1000) 1)
  unfolding map_page_to_frame
  entered frames =
      let low : leb 0x100000 (v / 0x1000) ≡ false = ground arith in
      rw (ne→== (v / 0x1000) 0 (omega arith), low, f.absent v (omega arith)) refl

  map_itself-step :
      (frames : Bitset)
      → map_itself v dir frames ≡ some (identity_step dir v, set_bit frames (v / 0x1000) 1)
  unfolding map_itself
  map_itself-step frames =
      let d = with_rights dir (table_index v) true false in
      ap
        (λ (r : Option Directory). elim r [
          | none ↦ none
          | some d ↦ elim (map_page_to_frame (page_at d v) (v / 0x1000) true false frames) [
            | none ↦ none
            | some (p, fs) ↦ some (set_page d v p, fs)
          ]
        ])
        got
      ∙ ap
          (λ (r : Option (Page × Bitset)). elim r [
            | none ↦ none
            | some (p, fs) ↦ some (set_page d v p, fs)
          ])
          (entered frames)

  ready : Ready dir v (with_rights dir (table_index v) true false)
  ready = with_rights-Ready dir v true false (f.there v (omega arith))

  step-IsFresh : IsFresh (identity_step dir v) (i + 1) n
  step-IsFresh = record {
    there = λ a h. ground (arith, f.there a h);
    absent = λ a h. ground (arith, f.absent a);
  }

  step_here : (a : ℕ) → a / 0x1000 ≡ i → get_physical_address (identity_step dir v) a ≡ a
  step_here a q =
      set_page-here (with_rights dir (table_index v) true false) v
        (itself (page_at dir v) (v / 0x1000)) a (omega arith) (ready.there)
      ∙ omega arith

  step_other :
      (a : ℕ)
      → a / 0x1000 ≢ i
      → get_physical_address (identity_step dir v) a ≡ get_physical_address dir a
  step_other a ne =
      set_page-Elsewhere (with_rights dir (table_index v) true false) v
        (itself (page_at dir v) (v / 0x1000)) a (λ q. ne (omega arith))
      ∙ ready.same a

-- What the loop makes of a directory, from the page `i` on.
abbrev pub IsIdentity : Directory → Directory → ℕ → ℕ → Type 0
IsIdentity dir d i end =
    ((a : ℕ) → i ≤ a / 0x1000 → a / 0x1000 * 0x1000 < end → get_physical_address d a ≡ a)
    × ((a : ℕ)
        → (a / 0x1000 < i) ⊎ (end ≤ a / 0x1000 * 0x1000)
        → get_physical_address d a ≡ get_physical_address dir a)

next_round :
    (m v end : ℕ) (dir d : Directory) (frames fs : Bitset)
    → ltb v end ≡ true
    → map_itself v dir frames ≡ some (d, fs)
    → identity_map (suc m) v end dir frames ≡ identity_map m (add32 v 0x1000) end d fs
unfolding identity_map
next_round m v end dir d frames fs more q = rw (more, identity_map, q) refl

-- One page, and then the pages behind it.
IsIdentity-step :
    (dir d : Directory) (v i end n : ℕ)
    → IsFresh dir i n
    → 0 < i
    → v / 0x1000 ≡ i
    → 0x1000 * i < end
    → end ≤ 0x1000 * n
    → end < 2 ^ 32
    → IsIdentity (identity_step dir v) d (i + 1) end
    → IsIdentity dir d i end
IsIdentity-step dir d v i end n f pos e more tables small rest = (
  λ a lo hi. elim (Bool-cases (a / 0x1000 == i)) [
    | inl k ↦
        rest.1 a (inl (omega (arith, ==→eq (a / 0x1000) i k)))
        ∙ step_here dir v i n f pos (omega arith) (omega arith) e a (==→eq (a / 0x1000) i k)
    | inr k ↦ rest.0 a (omega (arith, ==→ne (a / 0x1000) i k)) hi
  ],
  λ a out. elim out [
    | inl lt ↦
        rest.1 a (inl (omega arith))
        ∙ step_other dir v i n f pos (omega arith) (omega arith) e a (λ q. omega arith)
    | inr behind ↦
        rest.1 a (inr behind)
        ∙ step_other dir v i n f pos (omega arith) (omega arith) e a (λ q. omega arith)
  ],
)

-- With a round for each page the loop maps the pages from its start to the end to themselves, and
-- leaves every other address as it was, where their tables are there and nothing is mapped yet.
pub identity_map-IsIdentity :
    (m v i end n : ℕ) (dir : Directory) (frames : Bitset)
    → IsFresh dir i n
    → v ≡ 0x1000 * i
    → 0 < i
    → end ≤ 0x1000 * n
    → end < 2 ^ 32 - 0x1000
    → v < end + 0x1000
    → end + 0x1000 ≤ v + 0x1000 * m
    → (d : Directory) × (fs : Bitset) × (identity_map m v end dir frames ≡ some (d, fs))
      × IsIdentity dir d i end
unfolding identity_map
identity_map-IsIdentity zero v i end n dir frames f e pos tables small near fuel =
    absurd (omega arith)
identity_map-IsIdentity (suc m) v i end n dir frames f e pos tables small near fuel =
    elim (Bool-cases (ltb v end)) [
      | inl more ↦
          let lt : v < end = ltb→lt v end more in
          let page : v / 0x1000 ≡ i = omega arith in
          let d1 = identity_step dir v in
          let fs1 = set_bit frames (v / 0x1000) 1 in
          let rest =
            identity_map-IsIdentity m (add32 v 0x1000) (i + 1) end n d1 fs1
              (step-IsFresh dir v i n f pos (omega arith) (omega arith) page) (omega arith)
              (omega arith) tables small (omega arith) (omega arith) in
          (
            rest.0,
            rest.1,
            next_round m v end dir d1 frames fs1 more
                  (map_itself-step dir v i n f pos (omega arith) (omega arith) page frames)
                ∙ rest.2,
            IsIdentity-step dir (rest.0) v i end n f pos page (omega arith) tables (omega arith)
                rest.3,
          )
      | inr done ↦ (
        dir,
        frames,
        rw (done, identity_map) refl,
        (λ a lo hi. absurd (omega (arith, ltb→le v end done)), λ a out. refl),
      )
    ]
