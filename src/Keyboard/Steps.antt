-- ===== src/Keyboard/Steps.antt =====
-- Every handler of src/keyboard.c keeps the shift state in step with the shift keys.
use mariobr_os.Base.{
  ℕ, ◌<◌, ◌≡◌, refl, sym, subst, Bool, true, false, not, ◌||◌, Option, none, some, List, [], ◌==◌,
  bit_xor, to_int, arith, Bool-cases, Option-cases, inl, inr, ==→eq, ne→==,
}
use mariobr_os.Keyboard.{Keys, Event, shift_down, key_char, type_char}
use mariobr_os.Keyboard.Handlers.{screen_press, busy_press, shell_press}
use mariobr_os.Keyboard.Shift.{
  left_after, right_after, possible, Shifted, lights-Flips, shift_down-Shifted, caps_lock-Shifted,
  light-Shifted, other-Shifted, type_char-Shifted, dead_key-Shifted,
}

-- One of the given scancodes, or none of them.
split_modifiers :
    (P : ℕ → Type 0) (c : ℕ)
    → P 26
    → P 29
    → P 42
    → P 54
    → P 56
    → P 58
    → P 69
    → P 70
    → ((c == 26) ≡ false
        → (c == 29) ≡ false
        → (c == 42) ≡ false
        → (c == 54) ≡ false
        → (c == 56) ≡ false
        → (c == 58) ≡ false
        → (c == 69) ≡ false
        → (c == 70) ≡ false
        → P c)
    → P c
split_modifiers P c p26 p29 p42 p54 p56 p58 p69 p70 rest =
    let at : (n : ℕ) → P n → (c == n) ≡ true → P c = λ n p e. subst P (sym (==→eq c n e)) p in
    elim (Bool-cases (c == 26)) [
      | inl e ↦ at 26 p26 e
      | inr e26 ↦ elim (Bool-cases (c == 29)) [
        | inl e ↦ at 29 p29 e
        | inr e29 ↦ elim (Bool-cases (c == 42)) [
          | inl e ↦ at 42 p42 e
          | inr e42 ↦ elim (Bool-cases (c == 54)) [
            | inl e ↦ at 54 p54 e
            | inr e54 ↦ elim (Bool-cases (c == 56)) [
              | inl e ↦ at 56 p56 e
              | inr e56 ↦ elim (Bool-cases (c == 58)) [
                | inl e ↦ at 58 p58 e
                | inr e58 ↦ elim (Bool-cases (c == 69)) [
                  | inl e ↦ at 69 p69 e
                  | inr e69 ↦ elim (Bool-cases (c == 70)) [
                    | inl e ↦ at 70 p70 e
                    | inr e70 ↦ rest e26 e29 e42 e54 e56 e58 e69 e70
                  ]
                ]
              ]
            ]
          ]
        ]
      ]
    ]

split_arrows :
    (P : ℕ → Type 0) (c : ℕ)
    → P 71
    → P 72
    → P 75
    → P 77
    → P 79
    → P 80
    → ((c == 71) ≡ false
        → (c == 72) ≡ false
        → (c == 75) ≡ false
        → (c == 77) ≡ false
        → (c == 79) ≡ false
        → (c == 80) ≡ false
        → P c)
    → P c
split_arrows P c p71 p72 p75 p77 p79 p80 rest =
    let at : (n : ℕ) → P n → (c == n) ≡ true → P c = λ n p e. subst P (sym (==→eq c n e)) p in
    elim (Bool-cases (c == 71)) [
      | inl e ↦ at 71 p71 e
      | inr e71 ↦ elim (Bool-cases (c == 72)) [
        | inl e ↦ at 72 p72 e
        | inr e72 ↦ elim (Bool-cases (c == 75)) [
          | inl e ↦ at 75 p75 e
          | inr e75 ↦ elim (Bool-cases (c == 77)) [
            | inl e ↦ at 77 p77 e
            | inr e77 ↦ elim (Bool-cases (c == 79)) [
              | inl e ↦ at 79 p79 e
              | inr e79 ↦ elim (Bool-cases (c == 80)) [
                | inl e ↦ at 80 p80 e
                | inr e80 ↦ rest e71 e72 e75 e77 e79 e80
              ]
            ]
          ]
        ]
      ]
    ]

-- The state that a press leads to, where there is one.
abbrev pub Kept : Bool → Bool → Option (Keys × List Event) → Type 0
Kept l r none = Unit {0}
Kept l r (some (k, es)) = Shifted l r k

or_true : (b : Bool) → (b || true) ≡ true
or_true true = refl
or_true false = refl

to_int-not : (b : Bool) → not b ≡ true → to_int b ≡ 0
to_int-not true h = cc
to_int-not false h = refl

module _ (k : Keys) (l r : Bool) (s : Shifted l r k) where
  left_down : not l ≡ true → Shifted true r (shift_down k)
  left_down p = shift_down-Shifted k l r s true r (omega (arith, to_int-not l p)) refl

  right_down : not r ≡ true → Shifted l true (shift_down k)
  right_down p = shift_down-Shifted k l r s l true (omega (arith, to_int-not r p)) (or_true l)

  scroll_lock : Shifted l r (record k { k_lights = bit_xor k.k_lights 1 })
  scroll_lock =
      let (a, b, c, d, e, f, g, x) = lights-Flips k.k_lights s.lights in light-Shifted k l r s _ c f

  num_lock : Shifted l r (record k { k_lights = bit_xor k.k_lights 2 })
  num_lock =
      let (a, b, c, d, e, f, g, x) = lights-Flips k.k_lights s.lights in light-Shifted k l r s _ b e

  pub busy_press-Shifted :
      (c : ℕ)
      → c < 128
      → possible c l r ≡ true
      → Shifted (left_after c l) (right_after c r) (busy_press c k).0
  unfolding busy_press
  busy_press-Shifted c h =
      split_modifiers
        (λ c. possible c l r ≡ true → Shifted (left_after c l) (right_after c r) (busy_press c k).0)
        c (λ p. dead_key-Shifted k l r s []) (λ p. other-Shifted k l r s _ refl refl refl) left_down
        right_down (λ p. other-Shifted k l r s _ refl refl refl) (λ p. caps_lock-Shifted k l r s)
        (λ p. num_lock) (λ p. scroll_lock)
        (λ a b d e f g i j p.
          rw (a, b, d, e, f, g, i, j, ne→== c 170 (omega arith), ne→== c 182 (omega arith)) s)

  typed-Kept :
      (c : ℕ) → Kept l r (elim (key_char c k) [ none ↦ none | some x ↦ some (type_char k x) ])
  typed-Kept c = elim (Option-cases (key_char c k)) [
    | inl e ↦ rw e tt
    | inr (x, e) ↦ rw e (type_char-Shifted k l r s x)
  ]

  pub shell_press-Kept :
      (c : ℕ)
      → c < 128
      → possible c l r ≡ true
      → Kept (left_after c l) (right_after c r) (shell_press c k)
  unfolding shell_press
  shell_press-Kept c h =
      split_modifiers
        (λ c. possible c l r ≡ true → Kept (left_after c l) (right_after c r) (shell_press c k)) c
        (λ p. dead_key-Shifted k l r s _) (λ p. other-Shifted k l r s _ refl refl refl) left_down
        right_down (λ p. other-Shifted k l r s _ refl refl refl) (λ p. caps_lock-Shifted k l r s)
        (λ p. num_lock) (λ p. scroll_lock)
        (λ a b d e f g i j.
          split_arrows
            (λ c. possible c l r ≡ true → Kept (left_after c l) (right_after c r) (shell_press c k))
            c (λ p. s) (λ p. s) (λ p. s) (λ p. s) (λ p. s) (λ p. s)
            (λ u v w x y z p.
              rw
                (
                  a,
                  b,
                  d,
                  e,
                  f,
                  g,
                  i,
                  j,
                  u,
                  v,
                  w,
                  x,
                  y,
                  z,
                  ne→== c 170 (omega arith),
                  ne→== c 182 (omega arith),
                )
                (typed-Kept c)))

  pub screen_press-Kept :
      (pos c : ℕ)
      → c < 128
      → possible c l r ≡ true
      → Kept (left_after c l) (right_after c r) (screen_press pos c k)
  unfolding screen_press
  screen_press-Kept pos c h =
      split_modifiers
        (λ c.
          possible c l r ≡ true → Kept (left_after c l) (right_after c r) (screen_press pos c k))
        c (λ p. dead_key-Shifted k l r s _) (λ p. other-Shifted k l r s _ refl refl refl) left_down
        right_down (λ p. other-Shifted k l r s _ refl refl refl) (λ p. caps_lock-Shifted k l r s)
        (λ p. num_lock) (λ p. scroll_lock)
        (λ a b d e f g i j.
          split_arrows
            (λ c.
              possible c l r ≡ true
              → Kept (left_after c l) (right_after c r) (screen_press pos c k))
            c (λ p. s) (λ p. s) (λ p. s) (λ p. s) (λ p. s) (λ p. s)
            (λ u v w x y z p.
              rw
                (
                  a,
                  b,
                  d,
                  e,
                  f,
                  g,
                  i,
                  j,
                  u,
                  v,
                  w,
                  x,
                  y,
                  z,
                  ne→== c 170 (omega arith),
                  ne→== c 182 (omega arith),
                )
                (typed-Kept c)))
