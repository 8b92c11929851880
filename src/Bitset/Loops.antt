-- ===== src/Bitset/Loops.antt =====
-- The loops of src/bitset.c over the words: `first_false_bit`, and `param_ffb` with what it misses.
use mariobr_os.Base.{
  ℕ, zero, suc, ◌+◌, ◌-◌, ◌*◌, ◌/◌, ◌%◌, ◌≤◌, ◌<◌, ◌≡◌, ◌≢◌, refl, ap, ap₂, sym, ◌∙◌, subst, inl,
  inr, false, Option, none, some, [], ◌∷◌, arith, ◌==◌, ==→eq, ne→==, Bool-cases, Option-cases,
}
use mariobr_os.Base.Bits.{bit}
use mariobr_os.Bitset.{
  Bitset, word, all_ones, get_bit, find_zero, first_false_from, first_false_bit, param_ffb_from,
  param_ffb,
}
use mariobr_os.Bitset.Access.{IsValid, get_bit-bit}
use mariobr_os.Bitset.Search.{
  AllSet, SearchedWord, find_zero-SearchedWord, Searched, Searched-append, full_word, searched_word,
}

-- From the start of a word on, `param_ffb` is `first_false_bit`.
module _ (b : Bitset) where
  param_ffb_from-aligned : (n i : ℕ) → param_ffb_from n b i 0 ≡ first_false_from n b i
  unfolding param_ffb_from first_false_from
  param_ffb_from-aligned zero i = refl
  param_ffb_from-aligned (suc n) i = elim (Bool-cases (word b i == all_ones)) [
    | inl e ↦ rw (e, param_ffb_from, first_false_from) (param_ffb_from-aligned n (i + 1))
    | inr e ↦
        rw (e, param_ffb_from, first_false_from)
          (elim (Option-cases (find_zero 32 (word b i) 0)) [
            | inl f ↦ rw f (param_ffb_from-aligned n (i + 1))
            | inr (k, f) ↦ rw f
          ])
  ]

module _ (b : Bitset) (valid : IsValid b) where
  first_false_step :
      (n i : ℕ)
      → 32 * i + 32 ≤ b.length
      → Searched b (32 * i + 32) (first_false_from n b (i + 1))
      → Searched b (32 * i + 0) (first_false_from (suc n) b i)
  unfolding first_false_from
  first_false_step n i h next = elim (Bool-cases (word b i == all_ones)) [
    | inl full ↦
        rw (full, first_false_from)
          (Searched-append b (32 * i + 0) (32 * i + 32) _ (omega arith)
            (λ m p. full_word b i (==→eq _ _ full) m (omega arith)) next)
    | inr more ↦
        rw (more, first_false_from)
          (searched_word b i 0 (first_false_from n b (i + 1)) (omega arith) h valid.small next
            (find_zero 32 (word b i) 0) (find_zero-SearchedWord 32 (word b i) 0 (omega arith)))
  ]

  first_false_from-Searched :
      (n i lo : ℕ) → lo ≡ 32 * i → 32 * (i + n) ≡ b.length → Searched b lo (first_false_from n b i)
  first_false_from-Searched zero i lo e h =
      unfold first_false_from in inl (refl, λ m p q. absurd (omega arith))
  first_false_from-Searched (suc n) i lo e h =
      subst (λ t. Searched b t (first_false_from (suc n) b i)) {x = 32 * i + 0} (omega arith)
        (first_false_step n i (omega arith)
          (first_false_from-Searched n (i + 1) (32 * i + 32) (omega arith) (omega arith)))

  -- `first_false_bit` returns the least number that is not in a well-formed set, or all ones when
  -- every number below the length is in it.
  pub first_false_bit-Searched : Searched b 0 (first_false_bit b)
  unfolding first_false_bit
  first_false_bit-Searched =
      first_false_from-Searched (b.length / 32) 0 0 refl (omega (arith, valid.whole))

  param_ffb_step :
      (n i j : ℕ)
      → word b i ≢ all_ones
      → j < 32
      → 32 * (i + suc n) ≡ b.length
      → Searched b (32 * i + j) (param_ffb_from (suc n) b i j)
  unfolding param_ffb_from
  param_ffb_step n i j more hj h =
      rw (ne→== _ _ more, param_ffb_from)
        (searched_word b i j (param_ffb_from n b (i + 1) 0) (omega arith) (omega arith) valid.small
          (subst (Searched b (32 * i + 32)) (sym (param_ffb_from-aligned b n (i + 1)))
            (first_false_from-Searched n (i + 1) (32 * i + 32) (omega arith) (omega arith)))
          (find_zero (32 - j) (word b i) j)
          (find_zero-SearchedWord (32 - j) (word b i) j (omega arith)))

  -- `param_ffb` returns the least number from `first` on that is not in a well-formed set, or all
  -- ones, if the word that holds `first` is not full.
  pub param_ffb-Searched :
      (first : ℕ)
      → first < b.length
      → word b (first / 32) ≢ all_ones
      → Searched b first (param_ffb b first)
  unfolding param_ffb
  param_ffb-Searched first h more =
      let rounds : b.length / 32 - first / 32 ≡ suc (b.length / 32 - first / 32 - 1) =
        omega (arith, valid.whole) in
      rw rounds (
        subst
          (λ t.
            Searched b t
              (param_ffb_from (suc (b.length / 32 - first / 32 - 1)) b (first / 32) (first % 32)))
          {x = 32 * (first / 32) + first % 32} (omega arith)
          (param_ffb_step (b.length / 32 - first / 32 - 1) (first / 32) (first % 32) more
            (omega arith) (omega (arith, valid.whole))))

module _ (w j k : ℕ) (hj : j < 32) (hk : k < j) (free : bit w k ≡ 0) (s : AllSet w j 32) where
  two_words : Bitset
  two_words = record { bits = all_ones ∷ w ∷ []; length = 64 }

  none_left : (r : Option ℕ) → SearchedWord (32 - j) w j r → r ≡ none
  none_left none t = refl
  none_left (some m) (a, b, c, d) = absurd (omega (arith, s m a (omega arith)))

  second_word : param_ffb_from 1 two_words 1 j ≡ all_ones
  unfolding param_ffb_from two_words
  second_word = elim (Bool-cases (w == all_ones)) [
    | inl full ↦ rw (full, param_ffb_from)
    | inr more ↦ rw (
      more,
      none_left (find_zero (32 - j) w j) (find_zero-SearchedWord (32 - j) w j (omega arith)),
      param_ffb_from,
    )
  ]

  misses : param_ffb two_words j ≡ all_ones
  unfolding param_ffb param_ffb_from two_words
  misses =
      ap₂ (λ q r. param_ffb_from (2 - q) two_words q r) {x = j / 32} {y = 0} {u = j % 32} {v = j}
        (omega arith) (omega arith)
      ∙ second_word

  is_free : get_bit two_words (32 + k) ≡ false
  unfolding two_words
  is_free =
      get_bit-bit two_words (32 + k)
      ∙ ap₂ (λ q r. bit (word two_words q) r == 1) {x = (32 + k) / 32} {y = 1} {u = (32 + k) % 32}
          {v = k} (omega arith) (omega arith)
      ∙ ap (λ t. t == 1) free

-- After a full word `param_ffb` goes on at the same offset in the next word: where that word has
-- free bits below the offset only, it reports that the set is full, although a number is free.
pub param_ffb_misses :
    (w j k : ℕ)
    → j < 32
    → k < j
    → bit w k ≡ 0
    → AllSet w j 32
    → let b : Bitset = record { bits = all_ones ∷ w ∷ []; length = 64 } in
      (param_ffb b j ≡ all_ones) × (j ≤ 32 + k) × (get_bit b (32 + k) ≡ false)
unfolding two_words
param_ffb_misses w j k hj hk e s = (misses w j k hj hk e s, omega arith, is_free w j k hj hk e s)
