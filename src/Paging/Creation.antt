-- ===== src/Paging/Creation.antt =====
-- `new_page_dir` of src/paging.c: what the directory of a process keeps of the kernel's.
use mathlib.Core.Option.{some-injective}
use mariobr_os.Base.{
  ℕ, zero, suc, ◌/◌, ◌^◌, ◌<◌, ◌≡◌, ◌≢◌, ◌∙◌, inl, inr, refl, ap, sym, subst, Bool, true, false,
  Option, none, some, ◌==◌, arith, add32, Bool-cases, ==→eq, ==→ne, ◌>>=◌,
}
use mariobr_os.Bitset.{Bitset}
use mariobr_os.Paging.{
  Page, Directory, table_index, page_at, set_page, get_physical_address, get_page, map_fresh,
  map_page, request_virtual_space, with_rights, with_table, make_page_table, request_physical_space,
  free_virtual_space,
}
use mariobr_os.Paging.Translation.{Ready, with_rights-Ready, with_table-Ready, set_page-Elsewhere}
use mariobr_os.Paging.Spaces.{clone_directory, request_code, request_user, Spaces, new_page_dir}
use mariobr_os.Paging.Passes.{Kept, Kept-trans, IsGrowth}
use mariobr_os.Paging.Cloning.{clone_directory-Kept}

some_page-Ready :
    (frame : ℕ) (dir : Directory) (address : ℕ) (k w : Bool) (d : Directory)
    → get_page frame dir address k w ≡ some d
    → Ready dir address d
unfolding get_page make_page_table
some_page-Ready frame dir address k w d e =
    let t = table_index address in
    elim (Bool-cases (dir.entries t).present) [
      | inl p ↦
          let q : get_page frame dir address k w ≡ some (with_rights dir t k w) = rw p refl in
          subst (λ x. Ready dir address x) (some-injective _ _ (sym q ∙ e))
            (with_rights-Ready dir address k w p)
      | inr p ↦ elim (Bool-cases (dir.made t)) [
        | inl m ↦
            let q : get_page frame dir address k w ≡ none = rw (p, m) refl in
            absurd (cc (sym q ∙ e))
        | inr m ↦
            let q : get_page frame dir address k w ≡ some (with_table frame dir t k w) =
              rw (p, m) refl in
            subst (λ x. Ready dir address x) (some-injective _ _ (sym q ∙ e))
              (with_table-Ready frame dir address k w p)
      ]
    ]

unmapped :
    (d : Directory) (address a : ℕ)
    → address / 0x1000 ≡ a / 0x1000
    → (page_at d address).present ≡ false
    → get_physical_address d a ≡ 0
unfolding get_physical_address
unmapped d address a s absent = ground arith

-- A page that is free is written.
set_page-Kept :
    (dir d : Directory) (address : ℕ) (p : Page)
    → Ready dir address d
    → (page_at d address).present ≡ false
    → Kept dir (set_page d address p)
set_page-Kept dir d address p r absent a m = elim (Bool-cases (address / 0x1000 == a / 0x1000)) [
  | inl s ↦ absurd (m (sym (r.same a) ∙ unmapped d address a (==→eq _ _ s) absent))
  | inr s ↦ set_page-Elsewhere d address p a (==→ne _ _ s) ∙ r.same a
]

fresh_page :
    (dir d e : Directory) (address : ℕ) (ok : Bool) (fs : Bitset)
    (r : Option (Bool × Page × Bitset))
    → Ready dir address d
    → (page_at d address).present ≡ false
    → ◌≡◌ {A = Option (Bool × Directory × Bitset)}
        (elim r [ none ↦ none | some (b, p, gs) ↦ some (b, set_page d address p, gs) ])
        (some (ok, e, fs))
    → Kept dir e
fresh_page dir d e address ok fs none r absent q = absurd (cc)
fresh_page dir d e address ok fs (some (b, p, gs)) r absent q =
    subst (λ x. Kept dir x) (ap (λ (t : Bool × Directory × Bitset). t.1) (some-injective _ _ q))
      (set_page-Kept dir d address p r absent)

map_fresh-Kept :
    (dir d e : Directory) (address : ℕ) (k w ok : Bool) (frames fs : Bitset)
    → Ready dir address d
    → map_fresh address k w frames d ≡ some (ok, e, fs)
    → Kept dir e
unfolding map_fresh
map_fresh-Kept dir d e address k w ok frames fs r q =
    elim (Bool-cases ((page_at d address).present)) [
      | inl p ↦
          subst (λ x. Kept dir x)
            (ap (λ (t : Bool × Directory × Bitset). t.1) (some-injective _ _ (rw p at q)))
            (λ a m. r.same a)
      | inr p ↦
          fresh_page dir d e address ok fs (map_page (page_at d address) k w frames) r p (rw p at q)
    ]

requested_in :
    (frame : ℕ) (dir e : Directory) (address : ℕ) (k w ok : Bool) (frames fs : Bitset)
    (r : Option Directory)
    → get_page frame dir address k w ≡ r
    → ◌≡◌ {A = Option (Bool × Directory × Bitset)}
        (elim r [ none ↦ none | some d ↦ map_fresh address k w frames d ])
        (some (ok, e, fs))
    → Kept dir e
requested_in frame dir e address k w ok frames fs none g q = absurd (cc)
requested_in frame dir e address k w ok frames fs (some d) g q =
    map_fresh-Kept dir d e address k w ok frames fs (some_page-Ready frame dir address k w d g) q

request_virtual_space-Kept :
    (frame : ℕ) (dir e : Directory) (address : ℕ) (k w ok : Bool) (frames fs : Bitset)
    → request_virtual_space frame dir address k w frames ≡ some (ok, e, fs)
    → Kept dir e
unfolding request_virtual_space
request_virtual_space-Kept frame dir e address k w ok frames fs q =
    requested_in frame dir e address k w ok frames fs (get_page frame dir address k w) refl q

-- The rest of a loop over the pages of the code, after a request.
coded_page :
    (dir e : Directory) (fs : Bitset) (r : Option (Bool × Directory × Bitset))
    (next : Directory → Bitset → Option (Directory × Bitset))
    → ((ok : Bool) (d : Directory) (gs : Bitset) → r ≡ some (ok, d, gs) → Kept dir d)
    → ((d : Directory) (gs : Bitset) → next d gs ≡ some (e, fs) → Kept d e)
    → ◌≡◌ {A = Option (Directory × Bitset)}
        (elim r [ none ↦ none | some (ok, d, gs) ↦ elim ok [ true ↦ next d gs | false ↦ none ] ])
        (some (e, fs))
    → Kept dir e
coded_page dir e fs none next h k q = absurd (cc)
coded_page dir e fs (some (true, d, gs)) next h k q =
    Kept-trans dir d e (h true d gs refl) (k d gs q)
coded_page dir e fs (some (false, d, gs)) next h k q = absurd (cc)

request_code-Kept :
    (n : ℕ) (table_frame : ℕ → ℕ) (address : ℕ) (dir e : Directory) (frames fs : Bitset)
    → request_code n table_frame address dir frames ≡ some (e, fs)
    → Kept dir e
unfolding request_code
request_code-Kept zero table_frame address dir e frames fs q =
    subst (λ x. Kept dir x) (ap (λ (t : Directory × Bitset). t.0) (some-injective _ _ q))
      (λ a m. refl)
request_code-Kept (suc n) table_frame address dir e frames fs q =
    coded_page dir e fs (request_virtual_space (table_frame address) dir address false true frames)
      (λ d gs. request_code n table_frame (add32 address 0x1000) d gs)
      (λ ok d gs p.
        request_virtual_space-Kept (table_frame address) dir d address false true ok frames gs p)
      (λ d gs p. request_code-Kept n table_frame (add32 address 0x1000) d e gs fs p) q

request_user-Kept :
    (frame address : ℕ) (dir e : Directory) (frames fs : Bitset)
    → request_user frame address dir frames ≡ some (e, fs)
    → Kept dir e
unfolding request_user
request_user-Kept frame address dir e frames fs q =
    coded_page dir e fs (request_virtual_space frame dir address false true frames)
      (λ d gs. some (d, gs))
      (λ ok d gs p. request_virtual_space-Kept frame dir d address false true ok frames gs p)
      (λ d gs p.
        subst (λ x. Kept d x) (ap (λ (t : Directory × Bitset). t.0) (some-injective _ _ p))
          (λ a m. refl))
      q

bind_inv :
    {A B : Type 0} (r : Option A) (f : A → Option B) (b : B)
    → (r >>= f) ≡ some b
    → (a : A) × (r ≡ some a) × (f a ≡ some b)
bind_inv none f b q = absurd (cc)
bind_inv (some a) f b q = (a, refl, q)

unchanged-IsGrowth : IsGrowth (λ n d. d)
unchanged-IsGrowth = record { kept = λ n d a m. refl; tables = λ n d i. refl }

-- An address that the base directory maps translates in the directory of a new process as it does
-- there, unless the creation ends in a throw.
pub new_page_dir-get_physical_address :
    (n : ℕ) (table_frame : ℕ → ℕ) (user_stack user_heap : ℕ) (s t : Spaces) (dir : Directory)
    → new_page_dir (suc (suc n)) table_frame user_stack user_heap s ≡ some (dir, t)
    → (a : ℕ) → a < 2 ^ 32
    → get_physical_address s.base a ≢ 0
    → get_physical_address dir a ≡ get_physical_address s.base a
unfolding new_page_dir
new_page_dir-get_physical_address n table_frame user_stack user_heap s t dir q a h m =
    let (copy, base, e, kept_base, same, new) =
      clone_directory-Kept n (λ i d. d) table_frame s.base unchanged-IsGrowth in
    let ((c0, b0), e0, q0) =
      bind_inv (clone_directory (suc (suc n)) (λ i d. d) table_frame s.base) _ (dir, t) q in
    let ((d1, f1), e1, q1) =
      bind_inv (request_code 16 (λ b. table_frame (table_index b)) 0xffff_0000 c0 s.frames) _
        (dir, t) q0 in
    let ((d2, f2), e2, q2) =
      bind_inv (request_user (table_frame (table_index user_stack)) user_stack d1 f1) _ (dir, t)
        q1 in
    let ((d3, f3), e3, q3) =
      bind_inv (request_user (table_frame (table_index user_heap)) user_heap d2 f2) _ (dir, t) q2 in
    let ((v, c1, f4), e4, q4) =
      bind_inv
        (request_physical_space (table_frame (table_index user_heap)) s.current
          (get_physical_address d3 user_heap) true false f3)
        _ (dir, t) q3 in
    let ((c2, f5), e5, q5) =
      bind_inv (free_virtual_space (table_frame (table_index user_heap)) c1 v false f4) _ (dir, t)
        q4 in
    let at : get_physical_address c0 a ≡ get_physical_address s.base a =
      subst (λ x. get_physical_address x a ≡ get_physical_address s.base a)
        (ap (λ (r : Directory × Directory). r.0) (some-injective _ _ (sym e ∙ e0))) (same a h m) in
    let kept : Kept c0 d3 =
      Kept-trans c0 d2 d3
        (Kept-trans c0 d1 d2
          (request_code-Kept 16 (λ b. table_frame (table_index b)) 0xffff_0000 c0 d1 s.frames f1 e1)
          (request_user-Kept (table_frame (table_index user_stack)) user_stack d1 d2 f1 f2 e2))
        (request_user-Kept (table_frame (table_index user_heap)) user_heap d2 d3 f2 f3 e3) in
    subst (λ x. get_physical_address x a ≡ get_physical_address s.base a)
      (ap (λ (r : Directory × Spaces). r.0) (some-injective _ _ q5))
      (kept a (λ z. m (sym at ∙ z)) ∙ at)
