-- ===== src/Text/Compare.antt =====
-- Comparison: `str_cmp` decides the equality of two strings.
use mariobr_os.Base.{
  ℕ, ◌<◌, ◌≡◌, refl, ap₂, subst, true, List, [], ◌∷◌, ◌==◌, arith, Bool-cases, inl, inr, ==→eq,
  eq→==,
}
use mariobr_os.Text.{str_cmp}

-- The bytes of a string before its terminating zero.
abbrev pub IsString : List ℕ → Type 0
IsString [] = Unit
IsString (c ∷ s) = (0 < c) × IsString s

str_cmp_refl : (a : List ℕ) → str_cmp a a ≡ true
unfolding str_cmp
str_cmp_refl [] = refl
str_cmp_refl (c ∷ a) = rw (eq→== c c refl) (str_cmp_refl a)

str_cmp-eq : (a b : List ℕ) → IsString a → IsString b → str_cmp a b ≡ true → a ≡ b
unfolding str_cmp
str_cmp-eq [] [] ha hb h = refl
str_cmp-eq [] (d ∷ b) ha hb h = ground arith
str_cmp-eq (c ∷ a) [] ha hb h = ground arith
str_cmp-eq (c ∷ a) (d ∷ b) ha hb h = elim (Bool-cases (c == d)) [
  | inl e ↦ ap₂ (λ x s. x ∷ s) (==→eq c d e) (str_cmp-eq a b (ha.1) (hb.1) (rw e at h))
  | inr e ↦ ground arith
]

-- `str_cmp` returns true on two strings, with no zero byte before their ends, exactly when they are
-- equal.
pub str_cmp-eq_iff :
    (a b : List ℕ)
    → IsString a
    → IsString b
    → (str_cmp a b ≡ true → a ≡ b) × (a ≡ b → str_cmp a b ≡ true)
str_cmp-eq_iff a b ha hb =
    (str_cmp-eq a b ha hb, λ e. subst (λ t. str_cmp a t ≡ true) e (str_cmp_refl a))
