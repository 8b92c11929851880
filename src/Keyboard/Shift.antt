-- ===== src/Keyboard/Shift.antt =====
-- The shift keys: `k_shift` says which half of the table of characters is in use.
use mariobr_os.Base.{
  ℕ, zero, suc, ◌+◌, ◌-◌, ◌/◌, ◌≤◌, ◌<◌, ◌≡◌, ◌∙◌, refl, ap, sym, Bool, true, false, not, ◌||◌,
  some, List, ◌==◌, if◌then◌else◌, bit_and, bit_xor, is_true, to_int, arith, ◌⊎◌, Bool-cases, inl,
  inr,
}
use mariobr_os.Base.Bits.{and-pow, xor-top_set}
use mariobr_os.Keyboard.{
  Keys, Event, initial_keys, shift_up, shift_down, caps_lock, dead_key, type_char,
}
use mariobr_os.Keyboard.Handlers.{keyboard_handler, busy_keys, idle_keys}

-- Which of the two shift keys are down after a scancode.
abbrev pub left_after : ℕ → Bool → Bool
left_after scancode l = if scancode == 42 then true else if scancode == 170 then false else l

abbrev pub right_after : ℕ → Bool → Bool
right_after scancode r = if scancode == 54 then true else if scancode == 182 then false else r

-- A scancode that two keys can send: each is pressed where it is up, and released where it is down.
abbrev pub possible : ℕ → Bool → Bool → Bool
possible scancode l r =
    if scancode == 42
    then not l
    else if scancode == 170
    then l
    else if scancode == 54
    then not r
    else if scancode == 182
    then r
    else true

-- The states that the three handlers reach when no key repeats while it is held, with the shift
-- keys that are down.
pub data Typed : Bool → Bool → Keys → Type 0 where
  at_rest : Typed false false initial_keys
  busy_key :
      (l r : Bool) (k : Keys) (scancode : ℕ)
      → Typed l r k
      → scancode < 256
      → possible scancode l r ≡ true
      → Typed (left_after scancode l) (right_after scancode r) (busy_keys scancode k).0
  idle_key :
      (l r : Bool) (k : Keys) (scancode : ℕ) (k' : Keys) (es : List Event)
      → Typed l r k
      → scancode < 256
      → possible scancode l r ≡ true
      → idle_keys scancode k ≡ some (k', es)
      → Typed (left_after scancode l) (right_after scancode r) k'
  screen_key :
      (l r : Bool) (k : Keys) (scancode pos : ℕ) (k' : Keys) (es : List Event)
      → Typed l r k
      → scancode < 256
      → possible scancode l r ≡ true
      → keyboard_handler pos scancode k ≡ some (k', es)
      → Typed (left_after scancode l) (right_after scancode r) k'

abbrev pub caps : Keys → ℕ
caps k = bit_and k.k_lights 4 / 4

-- The shift state that belongs to the keys that are down and the caps lock.
pub record Shifted (l r : Bool) (k : Keys) : Type 0 where
  pub counted : k.k_shift_count ≡ to_int l + to_int r
  pub lights : k.k_lights < 8
  pub shifted : k.k_shift ≡ bit_xor (caps k) (to_int (l || r))

-- What flipping one of the three lights does to the caps lock.
abbrev pub Flips : ℕ → Type 0
Flips n =
    (bit_xor n 4 < 8)
    × (bit_xor n 2 < 8)
    × (bit_xor n 1 < 8)
    × (bit_and (bit_xor n 4) 4 / 4 ≡ 1 - bit_and n 4 / 4)
    × (bit_and (bit_xor n 2) 4 ≡ bit_and n 4)
    × (bit_and (bit_xor n 1) 4 ≡ bit_and n 4)
    × (bit_xor (bit_and n 4) 4 / 4 ≡ bit_xor (bit_and n 4 / 4) 1)
    × ((bit_and n 4 / 4 ≡ 0) ⊎ (bit_and n 4 / 4 ≡ 1))

pub lights-Flips : (n : ℕ) → n < 8 → Flips n
lights-Flips zero h = (omega arith, omega arith, omega arith, refl, refl, refl, refl, inl refl)
lights-Flips (suc zero) h =
    (omega arith, omega arith, omega arith, refl, refl, refl, refl, inl refl)
lights-Flips (suc (suc zero)) h =
    (omega arith, omega arith, omega arith, refl, refl, refl, refl, inl refl)
lights-Flips (suc (suc (suc zero))) h =
    (omega arith, omega arith, omega arith, refl, refl, refl, refl, inl refl)
lights-Flips (suc (suc (suc (suc zero)))) h =
    (omega arith, omega arith, omega arith, refl, refl, refl, refl, inr refl)
lights-Flips (suc (suc (suc (suc (suc zero))))) h =
    (omega arith, omega arith, omega arith, refl, refl, refl, refl, inr refl)
lights-Flips (suc (suc (suc (suc (suc (suc zero)))))) h =
    (omega arith, omega arith, omega arith, refl, refl, refl, refl, inr refl)
lights-Flips (suc (suc (suc (suc (suc (suc (suc zero))))))) h =
    (omega arith, omega arith, omega arith, refl, refl, refl, refl, inr refl)
lights-Flips (suc (suc (suc (suc (suc (suc (suc (suc n)))))))) h = absurd (omega arith)

-- A scancode below 128 is a key that is pressed, one above is a key that is released.
pub pressed : (scancode : ℕ) → scancode < 128 → is_true (bit_and scancode 128) ≡ false
pressed scancode h = ap is_true {y = 0} (omega (arith, and-pow scancode 7))

pub released :
    (scancode : ℕ)
    → 128 ≤ scancode
    → scancode < 256
    → (is_true (bit_and scancode 128) ≡ true) × (bit_xor scancode 128 ≡ scancode - 128)
released scancode h k =
    (ap is_true {y = 128} (omega (arith, and-pow scancode 7)), xor-top_set 7 scancode h k)

pub xor_bit : (a b : ℕ) → (a ≡ 0) ⊎ (a ≡ 1) → b ≤ 1 → bit_xor a b ≤ 1
xor_bit a zero (inl e) h = rw e (omega arith)
xor_bit a zero (inr e) h = rw e (omega arith)
xor_bit a (suc zero) (inl e) h = rw e (omega arith)
xor_bit a (suc zero) (inr e) h = rw e (omega arith)
xor_bit a (suc (suc b)) c h = absurd (omega arith)

pub to_int-le : (b : Bool) → to_int b ≤ 1
to_int-le true = omega arith
to_int-le false = omega arith

-- The caps lock is one bit.
pub caps-bit : (k : Keys) → k.k_lights < 8 → (caps k ≡ 0) ⊎ (caps k ≡ 1)
caps-bit k h = let (a, b, c, d, e, f, g, x) = lights-Flips k.k_lights h in x

-- `!` on the shift state.
not_shift :
    (v c : ℕ) (b : Bool)
    → (c ≡ 0) ⊎ (c ≡ 1)
    → v ≡ bit_xor c (to_int b)
    → (if v == 0 then 1 else 0) ≡ bit_xor (1 - c) (to_int b)
not_shift v c true (inl e) h = rw (h, e) refl
not_shift v c true (inr e) h = rw (h, e) refl
not_shift v c false (inl e) h = rw (h, e) refl
not_shift v c false (inr e) h = rw (h, e) refl

module _ (k : Keys) (l r : Bool) (s : Shifted l r k) where
  pub shift_up-Shifted :
      (l' r' : Bool)
      → to_int l + to_int r ≡ suc (to_int l' + to_int r')
      → Shifted l' r' (shift_up k)
  unfolding shift_up
  shift_up-Shifted true true h = absurd (omega (arith, to_int-le l, to_int-le r))
  shift_up-Shifted true false h = record {
    counted = omega (arith, s.counted);
    lights = s.lights;
    shifted = ap (bit_xor (caps k)) (omega (arith, s.counted));
  }
  shift_up-Shifted false true h = record {
    counted = omega (arith, s.counted);
    lights = s.lights;
    shifted = ap (bit_xor (caps k)) (omega (arith, s.counted));
  }
  shift_up-Shifted false false h = record {
    counted = omega (arith, s.counted);
    lights = s.lights;
    shifted = ap (bit_xor (caps k)) (omega (arith, s.counted));
  }

  pub shift_down-Shifted :
      (l' r' : Bool)
      → suc (to_int l + to_int r) ≡ to_int l' + to_int r'
      → (l' || r') ≡ true
      → Shifted l' r' (shift_down k)
  unfolding shift_down
  shift_down-Shifted l' r' h any =
      let (a, b, c, d, e, f, g, x) = lights-Flips k.k_lights s.lights in
      record {
        counted = omega (arith, s.counted, to_int-le l', to_int-le r');
        lights = s.lights;
        shifted = rw any g;
      }

  pub caps_lock-Shifted : Shifted l r (caps_lock k)
  unfolding caps_lock
  caps_lock-Shifted =
      let (a, b, c, d, e, f, g, x) = lights-Flips k.k_lights s.lights in
      record {
        counted = s.counted;
        lights = a;
        shifted =
            not_shift k.k_shift (caps k) (l || r) x s.shifted
            ∙ ap (λ t. bit_xor t (to_int (l || r))) (sym d);
      }

  -- The other lights.
  pub light-Shifted :
      (n : ℕ) → n < 8 → bit_and n 4 ≡ bit_and k.k_lights 4 → Shifted l r (record k { k_lights = n })
  light-Shifted n h e = record {
    counted = s.counted;
    lights = h;
    shifted = s.shifted ∙ ap (λ t. bit_xor (t / 4) (to_int (l || r))) (sym e);
  }

  -- What changes neither the shift keys nor the lights.
  pub other-Shifted :
      (k' : Keys)
      → k'.k_shift_count ≡ k.k_shift_count
      → k'.k_lights ≡ k.k_lights
      → k'.k_shift ≡ k.k_shift
      → Shifted l r k'
  other-Shifted k' a b c = record {
    counted = a ∙ s.counted;
    lights = omega (arith, s.lights);
    shifted = c ∙ s.shifted ∙ ap (λ t. bit_xor (bit_and t 4 / 4) (to_int (l || r))) (sym b);
  }

  pub type_char-Shifted : (c : ℕ) → Shifted l r (type_char k c).0
  unfolding type_char
  type_char-Shifted c = other-Shifted _ refl refl refl

  pub dead_key-Shifted : (twice : List Event) → Shifted l r (dead_key twice k).0
  unfolding dead_key
  dead_key-Shifted twice = elim (Bool-cases (is_true k.k_shift)) [
    | inl e ↦
        rw e (other-Shifted (record k { k_dead_hat = false; k_dead_trema = true }) refl refl refl)
    | inr e ↦ rw e (elim (Bool-cases k.k_dead_hat) [
      | inl d ↦ rw d (other-Shifted (record k { k_dead_hat = false }) refl refl refl)
      | inr d ↦ rw d (other-Shifted (record k { k_dead_hat = true }) refl refl refl)
    ])
  ]
