-- ===== src/Paging/Passes.antt =====
-- The searches of `clone_directory` of src/paging.c, while the heap that the copy is allocated on can
-- grow in the directory that is copied.
use mariobr_os.Base.{
  ℕ, zero, suc, ◌≤◌, ◌<◌, ◌≡◌, ◌≢◌, ◌∙◌, inl, inr, refl, ap, ap₂, sym, subst, Bool, true, false,
  not, ◌&&◌, some, ◌==◌, arith, Bool-cases, eq→==, ne→==, ==→eq, ==→ne,
}
use mariobr_os.Paging.{Directory, table_index, get_physical_address}
use mariobr_os.Paging.Spaces.{zero_directory, add_table, clone_pass, clone_loop}

-- Every address that is mapped stays so, at the same place.
abbrev pub Kept : Directory → Directory → Type 0
Kept dir d =
    (a : ℕ) → get_physical_address dir a ≢ 0 → get_physical_address d a ≡ get_physical_address dir a

pub Kept-trans : (dir d e : Directory) → Kept dir d → Kept d e → Kept dir e
Kept-trans dir d e h k a m = k a (λ z. m (sym (h a m) ∙ z)) ∙ h a m

-- Allocations that keep what is mapped and make no table: `paging_install` makes all the tables
-- that the kernel's heap can need before it clones its directory.
pub record IsGrowth (grow : ℕ → Directory → Directory) : Type 0 where
  pub kept : (n : ℕ) (d : Directory) → Kept d (grow n d)
  pub tables :
      (n : ℕ) (d : Directory) (i : ℕ) → ((grow n d).entries i).present ≡ (d.entries i).present

-- The state of the first search: `dir` at its start, the copy `c` and the directory `d` after the
-- tables below `n`.
pub record IsCloned (dir : Directory) (n : ℕ) (c d : Directory) : Type 0 where
  pub kept : Kept dir d
  pub tables : (i : ℕ) → (d.entries i).present ≡ (dir.entries i).present
  pub there : (i : ℕ) → i < n → (c.entries i).present ≡ (dir.entries i).present
  pub later : (i : ℕ) → n ≤ i → (c.entries i).present ≡ false
  pub old :
      (a : ℕ)
      → table_index a < n
      → get_physical_address dir a ≢ 0
      → get_physical_address c a ≡ get_physical_address dir a
  pub new : Kept c d

absent :
    (d : Directory) (a : ℕ)
    → (d.entries (table_index a)).present ≡ false
    → get_physical_address d a ≡ 0
unfolding get_physical_address
absent d a e = rw e refl

at_index :
    (d c : Directory) (a : ℕ)
    → get_physical_address (add_table (table_index a) d c) a ≡ get_physical_address d a
unfolding get_physical_address
at_index d c a = rw (eq→== (table_index a) (table_index a) refl) refl

add_table_here :
    (t a : ℕ) (d c : Directory)
    → t ≡ table_index a
    → get_physical_address (add_table t d c) a ≡ get_physical_address d a
add_table_here t a d c e =
    subst (λ i. get_physical_address (add_table i d c) a ≡ get_physical_address d a) (sym e)
      (at_index d c a)

add_table_other :
    (t a : ℕ) (d c : Directory)
    → t ≢ table_index a
    → get_physical_address (add_table t d c) a ≡ get_physical_address c a
unfolding get_physical_address
add_table_other t a d c ne = ground arith

module _ (grow : ℕ → Directory → Directory) (g : IsGrowth grow) (dir c d : Directory) (t : ℕ)
    (s : IsCloned dir t c d) where
  add-IsCloned :
      (d.entries t).present ≡ true → IsCloned dir (suc t) (add_table t (grow t d) c) (grow t d)
  add-IsCloned e =
      let d1 : Directory = grow t d in
      let all = Kept-trans dir d d1 s.kept (g.kept t d) in
      record {
        kept = all;
        tables = λ i. g.tables t d i ∙ s.tables i;
        there = λ i h. elim (Bool-cases (t == i)) [
          | inl k ↦ rw k (
              subst (λ j. (d1.entries t).present ≡ (dir.entries j).present) (==→eq t i k)
                (g.tables t d t ∙ s.tables t))
          | inr k ↦ rw k (s.there i (omega (arith, ==→ne t i k)))
        ];
        later = λ i h. rw (ne→== t i (omega arith)) (s.later i (omega arith));
        old = λ a h m. elim (Bool-cases (t == table_index a)) [
          | inl k ↦ add_table_here t a d1 c (==→eq t (table_index a) k) ∙ all a m
          | inr k ↦
              add_table_other t a d1 c (==→ne t (table_index a) k)
              ∙ s.old a (omega (arith, ==→ne t (table_index a) k)) m
        ];
        new = λ a m. elim (Bool-cases (t == table_index a)) [
          | inl k ↦ sym (add_table_here t a d1 c (==→eq t (table_index a) k))
          | inr k ↦
              let same = add_table_other t a d1 c (==→ne t (table_index a) k) in
              Kept-trans c d d1 s.new (g.kept t d) a (λ z. m (same ∙ z)) ∙ sym same
        ];
      }

  skip-IsCloned : (d.entries t).present ≡ false → IsCloned dir (suc t) c d
  skip-IsCloned e =
      let none_there : (dir.entries t).present ≡ false = sym (s.tables t) ∙ e in
      record {
        kept = s.kept;
        tables = s.tables;
        there = λ i h. elim (Bool-cases (t == i)) [
          | inl k ↦
              subst (λ j. (c.entries j).present ≡ (dir.entries j).present) (==→eq t i k)
                (s.later t (omega arith) ∙ sym none_there)
          | inr k ↦ s.there i (omega (arith, ==→ne t i k))
        ];
        later = λ i h. s.later i (omega arith);
        old = λ a h m. elim (Bool-cases (t == table_index a)) [
          | inl k ↦ absurd (
              m (
                absent dir a (
                  subst (λ j. (dir.entries j).present ≡ false) (==→eq t (table_index a) k)
                    none_there)))
          | inr k ↦ s.old a (omega (arith, ==→ne t (table_index a) k)) m
        ];
        new = s.new;
      }

abbrev pub missing : ℕ → Directory → Directory → Bool
missing t d c = (d.entries t).present && not (c.entries t).present

-- A search from the copy that has nothing yet.
pub first_pass :
    (n : ℕ) (grow : ℕ → Directory → Directory) (dir : Directory)
    → IsGrowth grow
    → IsCloned dir n
        (clone_pass n grow dir zero_directory).1
        (clone_pass n grow dir zero_directory).2
unfolding clone_pass
first_pass zero grow dir g = record {
  kept = λ a m. refl;
  tables = λ i. refl;
  there = λ i h. absurd (omega arith);
  later = λ i h. refl;
  old = λ a h m. absurd (omega arith);
  new = λ a m. absurd (m (absent zero_directory a refl));
}
first_pass (suc t) grow dir g =
    let rest = first_pass t grow dir g in
    let c : Directory = (clone_pass t grow dir zero_directory).1 in
    let d : Directory = (clone_pass t grow dir zero_directory).2 in
    elim (Bool-cases ((d.entries t).present)) [
      | inl e ↦
          let k : missing t d c ≡ true = ap₂ (λ a b. a && not b) e (rest.later t (omega arith)) in
          rw (k, clone_pass) (add-IsCloned grow g dir c d t rest e)
      | inr e ↦
          let k : missing t d c ≡ false = ap (λ a. a && not (c.entries t).present) e in
          rw (k, clone_pass) (skip-IsCloned grow g dir c d t rest e)
    ]

-- A search through a copy that has all the tables finds no difference.
last_pass :
    (n : ℕ) (grow : ℕ → Directory → Directory) (dir c : Directory)
    → ((i : ℕ) → i < n → (c.entries i).present ≡ (dir.entries i).present)
    → clone_pass n grow dir c ≡ (true, c, dir)
unfolding clone_pass
last_pass zero grow dir c h = refl
last_pass (suc t) grow dir c h =
    let rest = last_pass t grow dir c (λ i k. h i (omega arith)) in
    let k : missing t dir c ≡ false =
      ap (λ b. (dir.entries t).present && not b) (h t (omega arith))
      ∙ both ((dir.entries t).present) in
    rw (rest, k) refl
  where
    both : (b : Bool) → (b && not b) ≡ false
    both true = refl
    both false = refl

-- The second search is the last one.
pub clone_loop_ends :
    (n : ℕ) (grow : ℕ → Directory → Directory) (dir : Directory)
    → IsGrowth grow
    → clone_loop (suc (suc n)) grow dir zero_directory
      ≡ some
          ((clone_pass 1024 grow dir zero_directory).1, (clone_pass 1024 grow dir zero_directory).2)
unfolding clone_loop
clone_loop_ends n grow dir g =
    let c : Directory = (clone_pass 1024 grow dir zero_directory).1 in
    let d : Directory = (clone_pass 1024 grow dir zero_directory).2 in
    let state = first_pass 1024 grow dir g in
    let again = last_pass 1024 grow d c (λ i h. state.there i h ∙ sym (state.tables i)) in
    elim (Bool-cases ((clone_pass 1024 grow dir zero_directory).0)) [
      | inl e ↦ rw (e, clone_loop) refl
      | inr e ↦
          rw (e, clone_loop, again)
            (ap (λ (r : Bool × Directory × Directory). some (r.1, r.2)) again)
    ]
