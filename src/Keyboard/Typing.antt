-- ===== src/Keyboard/Typing.antt =====
-- Typing on the keyboard: the shift state, and reads of the table of characters.
use mariobr_os.Base.{
  ℕ, zero, suc, ◌+◌, ◌-◌, ◌*◌, ◌%◌, ◌≤◌, ◌<◌, ◌≡◌, refl, sym, subst, Bool, true, false, ◌||◌, ◌/◌,
  none, some, ◌==◌, bit_and, bit_xor, to_int, get_elem?-some, get_elem?-none, arith, Bool-cases,
  inl, inr, ==→eq, ==→ne, ne→==, ltb, ltb→lt, ltb→le,
}
use mariobr_os.Base.Bits.{zero-xor}
use mariobr_os.Keyboard.{
  kbdus, Keys, initial_keys, release, shift_up, shift_down, key_char, decrement,
}
use mariobr_os.Keyboard.Handlers.{keyboard_handler, busy_keys, idle_keys}
use mariobr_os.Keyboard.Shift.{
  left_after, right_after, possible, Shifted, Typed, at_rest, busy_key, idle_key, screen_key, caps,
  caps-bit, xor_bit, to_int-le, pressed, released, shift_up-Shifted, other-Shifted,
}
use mariobr_os.Keyboard.Steps.{Kept, busy_press-Shifted, shell_press-Kept, screen_press-Kept}

one : (b : Bool) → b ≡ true → to_int b ≡ 1
one true h = refl
one false h = cc

module _ (k : Keys) (l r : Bool) (s : Shifted l r k) where
  -- The four keys whose release matters.
  release-Shifted :
      (c : ℕ)
      → 128 ≤ c
      → possible c l r ≡ true
      → Shifted (left_after c l) (right_after c r) (release (c - 128) k)
  unfolding release
  release-Shifted c h = elim (Bool-cases (c == 170)) [
    | inl e ↦
        subst P (sym (==→eq c 170 e))
          (λ p. shift_up-Shifted k l r s false r (omega (arith, one l p)))
    | inr e170 ↦ elim (Bool-cases (c == 182)) [
      | inl e ↦
          subst P (sym (==→eq c 182 e))
            (λ p. shift_up-Shifted k l r s l false (omega (arith, one r p)))
      | inr e182 ↦ elim (Bool-cases (c == 157)) [
        | inl e ↦ subst P (sym (==→eq c 157 e)) (λ p. other-Shifted k l r s _ refl refl refl)
        | inr e157 ↦ elim (Bool-cases (c == 184)) [
          | inl e ↦ subst P (sym (==→eq c 184 e)) (λ p. other-Shifted k l r s _ refl refl refl)
          | inr e184 ↦ λ p.
              rw
                (
                  e170,
                  e182,
                  ne→== c 42 (omega arith),
                  ne→== c 54 (omega arith),
                  ne→== (c - 128) 29 (omega (arith, ==→ne c 157 e157)),
                  ne→== (c - 128) 42 (omega (arith, ==→ne c 170 e170)),
                  ne→== (c - 128) 54 (omega (arith, ==→ne c 182 e182)),
                  ne→== (c - 128) 56 (omega (arith, ==→ne c 184 e184)),
                )
                s
        ]
      ]
    ]
  ]
    where
      P : ℕ → Type 0
      P c = possible c l r ≡ true → Shifted (left_after c l) (right_after c r) (release (c - 128) k)

  busy_keys-Shifted :
      (c : ℕ)
      → c < 256
      → possible c l r ≡ true
      → Shifted (left_after c l) (right_after c r) (busy_keys c k).0
  unfolding busy_keys
  busy_keys-Shifted c h p = elim (Bool-cases (ltb c 128)) [
    | inl e ↦ rw (pressed c (ltb→lt c 128 e)) (busy_press-Shifted k l r s c (ltb→lt c 128 e) p)
    | inr e ↦
        rw ((released c (ltb→le c 128 e) h).0, (released c (ltb→le c 128 e) h).1)
          (release-Shifted c (ltb→le c 128 e) p)
  ]

  idle_keys-Kept :
      (c : ℕ)
      → c < 256
      → possible c l r ≡ true
      → Kept (left_after c l) (right_after c r) (idle_keys c k)
  unfolding idle_keys
  idle_keys-Kept c h p = elim (Bool-cases (ltb c 128)) [
    | inl e ↦ rw (pressed c (ltb→lt c 128 e)) (shell_press-Kept k l r s c (ltb→lt c 128 e) p)
    | inr e ↦
        rw ((released c (ltb→le c 128 e) h).0, (released c (ltb→le c 128 e) h).1)
          (release-Shifted c (ltb→le c 128 e) p)
  ]

  keyboard_handler-Kept :
      (pos c : ℕ)
      → c < 256
      → possible c l r ≡ true
      → Kept (left_after c l) (right_after c r) (keyboard_handler pos c k)
  unfolding keyboard_handler
  keyboard_handler-Kept pos c h p = elim (Bool-cases (ltb c 128)) [
    | inl e ↦ rw (pressed c (ltb→lt c 128 e)) (screen_press-Kept k l r s pos c (ltb→lt c 128 e) p)
    | inr e ↦
        rw ((released c (ltb→le c 128 e) h).0, (released c (ltb→le c 128 e) h).1)
          (release-Shifted c (ltb→le c 128 e) p)
  ]

-- While no key repeats, on every state that the handlers reach, `k_shift_count` is the number of
-- shift keys that are down, and `k_shift` is 1 where exactly one of caps lock and a shift key is
-- on, and 0 otherwise.
pub Typed-Shifted : (l r : Bool) (k : Keys) → Typed l r k → Shifted l r k
unfolding initial_keys
Typed-Shifted _ _ _ at_rest = record { counted = refl; lights = omega arith; shifted = refl }
Typed-Shifted _ _ _ (busy_key l r k c t h p) = busy_keys-Shifted k l r (Typed-Shifted l r k t) c h p
Typed-Shifted _ _ _ (idle_key l r k c k' es t h p e) =
    subst (Kept (left_after c l) (right_after c r)) e
      (idle_keys-Kept k l r (Typed-Shifted l r k t) c h p)
Typed-Shifted _ _ _ (screen_key l r k c pos k' es t h p e) =
    subst (Kept (left_after c l) (right_after c r)) e
      (keyboard_handler-Kept k l r (Typed-Shifted l r k t) pos c h p)

-- While no key repeats, a key that is pressed is always looked up inside the table.
pub Typed-in_table :
    (l r : Bool) (k : Keys) (scancode : ℕ)
    → Typed l r k
    → scancode < 128
    → (c : ℕ) × (key_char scancode k ≡ some c)
unfolding key_char
Typed-in_table l r k scancode t h =
    let s = Typed-Shifted l r k t in
    get_elem?-some kbdus (scancode + k.k_shift * 128) (
      omega (
        arith,
        s.shifted,
        xor_bit (caps k) (to_int (l || r)) (caps-bit k s.lights) (to_int-le (l || r)),
      ))

-- `n` presses of a shift key, as the keyboard sends them while it is held.
abbrev pub held : ℕ → Keys → Keys
held zero k = k
held (suc n) k = shift_down (held n k)

held-count : (n : ℕ) → (held n initial_keys).k_shift_count ≡ n % 256
unfolding initial_keys shift_down
held-count zero = refl
held-count (suc n) = omega (arith, held-count n)

held-lights : (n : ℕ) → (held n initial_keys).k_lights ≡ 0
unfolding initial_keys shift_down
held-lights zero = refl
held-lights (suc n) = held-lights n

-- A shift key that is held until it has been sent `n` times leaves `k_shift` at `n - 1` when it is
-- released: from three times on, every key is then looked up past the table.
pub held-past_table :
    (n scancode : ℕ)
    → 3 ≤ n
    → n ≤ 256
    → ((shift_up (held n initial_keys)).k_shift ≡ n - 1)
      × (key_char scancode (shift_up (held n initial_keys)) ≡ none)
unfolding shift_up key_char
held-past_table n scancode h k =
    let e : bit_xor (bit_and (held n initial_keys).k_lights 4 / 4)
          (decrement (held n initial_keys).k_shift_count)
        ≡ n - 1 =
      rw (held-lights n, zero-xor) (omega (arith, held-count n)) in
    (e, get_elem?-none kbdus (scancode + _ * 128) (omega (arith, e)))
