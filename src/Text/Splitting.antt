-- ===== src/Text/Splitting.antt =====
-- Splitting: what `str_split` does to a string, with and without the empty words.
use mathlib.Core.Option
use mathlib.Core.List
use mariobr_os.Base.{
  ℕ, ◌+◌, ◌<◌, ◌≡◌, ◌≢◌, ◌∙◌, refl, ap, sym, Bool, true, false, some, List, [], ◌∷◌, ◌++◌, ◌==◌,
  if◌then◌else◌, arith, length, Bool-cases, inl, inr, ==→eq, ==→ne, lt→ltb, length-append,
}
use mariobr_os.Text.{split_from, str_split, flushes}

-- The words with the separator before each, and between them.
abbrev pub join_after : ℕ → List (List ℕ) → List ℕ
join_after c [] = []
join_after c (w ∷ ws) = c ∷ (w ++ join_after c ws)

abbrev pub join : ℕ → List (List ℕ) → List ℕ
join c [] = []
join c (w ∷ ws) = w ++ join_after c ws

abbrev pub HasNot : ℕ → List ℕ → Type 0
HasNot c [] = Unit {0}
HasNot c (x ∷ w) = (x ≢ c) × HasNot c w

abbrev pub AllHaveNot : ℕ → List (List ℕ) → Type 0
AllHaveNot c [] = Unit {0}
AllHaveNot c (w ∷ ws) = HasNot c w × AllHaveNot c ws

-- A reference: the words of a string, empty ones included, after the part of a word before it.
pub words_after : ℕ → List ℕ → List ℕ → List (List ℕ)
words_after c buffer [] = buffer ∷ []
words_after c buffer (x ∷ s) = elim (x == c) [
  | true ↦ buffer ∷ words_after c [] s
  | false ↦ words_after c (buffer ++ x ∷ []) s
]

-- The words that are kept: all of them, or those that are not empty.
abbrev pub kept : Bool → List (List ℕ) → List (List ℕ)
kept empty [] = []
kept empty (w ∷ ws) = if flushes w empty then w ∷ kept empty ws else kept empty ws

words_after-nil : (c : ℕ) (buffer : List ℕ) → words_after c buffer [] ≡ buffer ∷ []
unfolding words_after
words_after-nil c buffer = refl

words_after-separator :
    (c x : ℕ) (buffer s : List ℕ)
    → (x == c) ≡ true
    → words_after c buffer (x ∷ s) ≡ buffer ∷ words_after c [] s
unfolding words_after
words_after-separator c x buffer s e = rw (e, words_after)

words_after-other :
    (c x : ℕ) (buffer s : List ℕ)
    → (x == c) ≡ false
    → words_after c buffer (x ∷ s) ≡ words_after c (buffer ++ x ∷ []) s
unfolding words_after
words_after-other c x buffer s e = rw (e, words_after)

not_flushed : (buffer : List ℕ) (empty : Bool) → flushes buffer empty ≡ false → buffer ≡ []
not_flushed [] empty e = refl
not_flushed (x ∷ buffer) empty e = absurd (cc)

-- The loop puts the kept words in front of those that it has, the last one first.
split_from-words :
    (s : List ℕ) (c : ℕ) (empty : Bool) (buffer : List ℕ) (res : List (List ℕ))
    → length buffer + length s < 128
    → split_from s c empty buffer res
      ≡ some (List.reverse_aux (kept empty (words_after c buffer s)) res)
unfolding split_from
split_from-words [] c empty buffer res h = elim (Bool-cases (flushes buffer empty)) [
  | inl f ↦ rw (words_after-nil c buffer, f, lt→ltb (length buffer) 128 (omega arith))
  | inr f ↦ rw (words_after-nil c buffer, f)
]
split_from-words (x ∷ s) c empty buffer res h = elim (Bool-cases (x == c)) [
  | inl e ↦ elim (Bool-cases (flushes buffer empty)) [
    | inl f ↦
        rw (e, f, lt→ltb (length buffer) 128 (omega arith), split_from)
          (rw (words_after-separator c x buffer s e, f)
            (split_from-words s c empty [] (buffer ∷ res) (omega arith)))
    | inr f ↦
        rw (e, f, split_from)
          (rw (words_after-separator c x buffer s e, f)
            (rw (not_flushed buffer empty f) (split_from-words s c empty [] res (omega arith))))
  ]
  | inr e ↦
      rw (e, lt→ltb (length buffer) 128 (omega arith), split_from)
        (rw (words_after-other c x buffer s e) (
          split_from-words s c empty (buffer ++ x ∷ []) res
            (omega (arith, length-append {0} buffer (x ∷ [])))))
]

-- `str_split` on a string of less than 128 bytes gives its words, the empty ones only if asked for.
pub str_split-words :
    (s : List ℕ) (c : ℕ) (empty : Bool)
    → length s < 128
    → str_split s c empty ≡ some (kept empty (words_after c [] s))
unfolding str_split
str_split-words s c empty h =
    ap (λ o. Option.map List.reverse o) (split_from-words s c empty [] [] (omega arith))
    ∙ ap some (List.reverse-reverse (kept empty (words_after c [] s)))

kept_all : (ws : List (List ℕ)) → kept true ws ≡ ws
kept_all [] = refl
kept_all ([] ∷ ws) = ap (λ t. [] ∷ t) (kept_all ws)
kept_all ((x ∷ w) ∷ ws) = ap (λ t. (x ∷ w) ∷ t) (kept_all ws)

join_after-words_after :
    (c : ℕ) (buffer s : List ℕ) → join_after c (words_after c buffer s) ≡ c ∷ (buffer ++ s)
join_after-words_after c buffer [] = rw (words_after-nil c buffer)
join_after-words_after c buffer (x ∷ s) = elim (Bool-cases (x == c)) [
  | inl e ↦
      rw (words_after-separator c x buffer s e, join_after-words_after c [] s)
        (ap (λ y. c ∷ (buffer ++ y ∷ s)) (sym (==→eq x c e)))
  | inr e ↦
      rw (words_after-other c x buffer s e, join_after-words_after c (buffer ++ x ∷ []) s)
        (ap (λ t. c ∷ t) (List.append_assoc buffer (x ∷ []) s))
]

join-words_after : (c : ℕ) (buffer s : List ℕ) → join c (words_after c buffer s) ≡ buffer ++ s
join-words_after c buffer [] = rw (words_after-nil c buffer)
join-words_after c buffer (x ∷ s) = elim (Bool-cases (x == c)) [
  | inl e ↦
      rw (words_after-separator c x buffer s e, join_after-words_after c [] s)
        (ap (λ y. buffer ++ y ∷ s) (sym (==→eq x c e)))
  | inr e ↦
      rw (words_after-other c x buffer s e, join-words_after c (buffer ++ x ∷ []) s)
        (List.append_assoc buffer (x ∷ []) s)
]

HasNot-snoc : (c x : ℕ) (w : List ℕ) → HasNot c w → x ≢ c → HasNot c (w ++ x ∷ [])
HasNot-snoc c x [] h ne = (ne, tt)
HasNot-snoc c x (y ∷ w) h ne = (h.0, HasNot-snoc c x w h.1 ne)

words_after-AllHaveNot :
    (c : ℕ) (buffer s : List ℕ) → HasNot c buffer → AllHaveNot c (words_after c buffer s)
words_after-AllHaveNot c buffer [] h = rw (words_after-nil c buffer) (h, tt)
words_after-AllHaveNot c buffer (x ∷ s) h = elim (Bool-cases (x == c)) [
  | inl e ↦ rw (words_after-separator c x buffer s e) (h, words_after-AllHaveNot c [] s tt)
  | inr e ↦
      rw (words_after-other c x buffer s e)
        (words_after-AllHaveNot c (buffer ++ x ∷ []) s (HasNot-snoc c x buffer h (==→ne x c e)))
]

-- `str_split` on a string of less than 128 bytes cuts it at every separator: the words have none,
-- joined by it they are the string, and without the empty words it gives the others in their order.
pub str_split-join :
    (s : List ℕ) (c : ℕ)
    → length s < 128
    → (ws : List (List ℕ)) × (str_split s c true ≡ some ws)
      × (join c ws ≡ s)
      × AllHaveNot c ws
      × (str_split s c false ≡ some (kept false ws))
str_split-join s c h = (
  words_after c [] s,
  str_split-words s c true h ∙ ap some (kept_all (words_after c [] s)),
  join-words_after c [] s,
  words_after-AllHaveNot c [] s tt,
  str_split-words s c false h,
)
