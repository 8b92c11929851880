-- ===== src/Keyboard/Tests.antt =====
-- Concrete runs of the keyboard driver.
use mariobr_os.Base.{◌≡◌, refl, true, false, some, [], ◌∷◌, length, arith}
use mariobr_os.Keyboard.{
  kbdus, Keys, write_string, initial_keys, dead_key, with_hat, key_char, type_char,
}
use mariobr_os.Keyboard.Handlers.{idle_keys, busy_keys, shell_press}
use mariobr_os.Keyboard.Shift.{Typed, at_rest, busy_key, Shifted}
use mariobr_os.Keyboard.Typing.{Typed-Shifted}

kbdus_size : length kbdus ≡ 256
kbdus_size = refl

-- `^` and then `e`.
hat_e :
    idle_keys 18 (dead_key [] initial_keys).0
    ≡ some (initial_keys, write_string (0xc3 ∷ 0xaa ∷ []) ∷ [])
unfolding idle_keys shell_press key_char type_char with_hat dead_key initial_keys
hat_e = refl

-- The left shift key is down.
abbrev left_down : Keys
left_down = (busy_keys 42 initial_keys).0

left_down-Typed : Typed true false left_down
left_down-Typed = busy_key false false initial_keys 42 at_rest (omega arith) refl

Typed-Shifted_example : Shifted true false left_down
Typed-Shifted_example = Typed-Shifted true false left_down left_down-Typed
