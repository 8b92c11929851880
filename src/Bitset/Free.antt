-- ===== src/Bitset/Free.antt =====
-- What `param_ffb` of src/bitset.c finds from any position on: a number that is not in the set.
use mariobr_os.Base.{
  ℕ, zero, suc, ◌+◌, ◌-◌, ◌*◌, ◌/◌, ◌%◌, ◌^◌, ◌≤◌, ◌<◌, ◌≡◌, ◌≢◌, refl, ap, ap₂, ◌∙◌, ◌⊎◌, inl, inr,
  Option, none, some, arith, ◌==◌, Bool-cases, add32, false,
}
use mariobr_os.Base.Bits.{bit}
use mariobr_os.Bitset.{Bitset, word, all_ones, get_bit, find_zero, param_ffb_from, param_ffb}
use mariobr_os.Bitset.Access.{get_bit-bit}
use mariobr_os.Bitset.Search.{SearchedWord, find_zero-SearchedWord, member}

abbrev Free : Bitset → ℕ → Type 0
Free b r = (r ≡ all_ones) ⊎ ((r < b.length) × (member b r ≡ 0))

module _ (b : Bitset) (small : b.length < 2 ^ 32) where
  found_in_word :
      (i j rest : ℕ) (r : Option ℕ)
      → j ≤ 32
      → 32 * (i + 1) ≤ b.length
      → SearchedWord (32 - j) (word b i) j r
      → Free b rest
      → Free b (elim r [ some k ↦ add32 (32 * i) k | none ↦ rest ])
  found_in_word i j rest none hj h s f = f
  found_in_word i j rest (some k) hj h (p, q, e, u) f =
      let no_wrap : add32 (32 * i) k ≡ 32 * i + k = omega arith in
      rw no_wrap (
        inr (
          omega arith,
          ap₂ (λ t v. bit (word b t) v) {x = (32 * i + k) / 32} {y = i} {u = (32 * i + k) % 32}
                {v = k} (omega arith) (omega arith)
              ∙ e,
        ))

  param_ffb_from-Free :
      (n i j : ℕ) → j ≤ 32 → (0 < n → 32 * (i + n) ≤ b.length) → Free b (param_ffb_from n b i j)
  unfolding param_ffb_from
  param_ffb_from-Free zero i j hj h = inl refl
  param_ffb_from-Free (suc n) i j hj h =
      let fits : 32 * (i + suc n) ≤ b.length = h (omega arith) in
      elim (Bool-cases (word b i == all_ones)) [
        | inl e ↦ rw (e, param_ffb_from) (param_ffb_from-Free n (i + 1) j hj (λ _. omega arith))
        | inr e ↦
            rw (e, param_ffb_from)
              (found_in_word i j (param_ffb_from n b (i + 1) 0) (find_zero (32 - j) (word b i) j) hj
                (omega arith) (find_zero-SearchedWord (32 - j) (word b i) j (omega arith))
                (param_ffb_from-Free n (i + 1) 0 (omega arith) (λ _. omega arith)))
      ]

  pub param_ffb-free :
      (first : ℕ)
      → param_ffb b first ≢ all_ones
      → (param_ffb b first < b.length) × (get_bit b (param_ffb b first) ≡ false)
  unfolding param_ffb
  param_ffb-free first ne =
      elim (param_ffb_from-Free (b.length / 32 - first / 32) (first / 32) (first % 32) (omega arith)
        (λ h. omega arith)) [
          | inl e ↦ absurd (ne e)
          | inr (lt, m) ↦ (lt, get_bit-bit b _ ∙ ap (λ t. t == 1) m)
        ]

-- A search that starts at all ones, past every word, finds nothing.
pub param_ffb-past_end : (b : Bitset) → b.length < 2 ^ 32 - 31 → param_ffb b all_ones ≡ all_ones
unfolding param_ffb param_ffb_from
param_ffb-past_end b h =
    ap (λ n. param_ffb_from n b (all_ones / 32) (all_ones % 32)) {x = b.length / 32 - all_ones / 32}
      {y = 0} (omega arith)
