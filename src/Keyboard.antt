-- ===== src/Keyboard.antt =====
-- src/keyboard.c: the PC keyboard driver, on the screen and in front of the shell. Every scancode
-- that a handler reads is its argument; what it writes is a list of events, in order.
pub mod Handlers
pub mod Shift
pub mod Steps
pub mod Typing
mod Tests
use mariobr_os.Base.{
  ℕ, zero, suc, ◌+◌, ◌-◌, ◌*◌, ◌/◌, ◌%◌, ◌^◌, Bool, true, false, not, ◌&&◌, Option, none, some,
  List, [], ◌∷◌, ◌==◌, if◌then◌else◌, bit_and, bit_xor, is_true, get_elem?, ltb,
}

-- The characters of the keys: 128 without shift, then 128 with shift.
abbrev pub kbdus : List ℕ
kbdus =
    0 ∷ 19 ∷ 38 ∷ 130 ∷ 34 ∷ 39 ∷ 40 ∷ 45 ∷ 138 ∷ 95 ∷ 135 ∷ 133 ∷ 41 ∷ 61 ∷ 8 ∷ 9 ∷ 97 ∷ 122 ∷ 101
    ∷ 114 ∷ 116 ∷ 121 ∷ 117 ∷ 105 ∷ 111 ∷ 112 ∷ 94 ∷ 36 ∷ 10 ∷ 0 ∷ 113 ∷ 115 ∷ 100 ∷ 102 ∷ 103 ∷ 104
    ∷ 106 ∷ 107 ∷ 108 ∷ 109 ∷ 151 ∷ 253 ∷ 0 ∷ 42 ∷ 119 ∷ 120 ∷ 99 ∷ 118 ∷ 98 ∷ 110 ∷ 44 ∷ 59 ∷ 58
    ∷ 33 ∷ 0 ∷ 42 ∷ 0 ∷ 32 ∷ 0 ∷ 70 ∷ 70 ∷ 70 ∷ 70 ∷ 70 ∷ 70 ∷ 70 ∷ 70 ∷ 70 ∷ 70 ∷ 0 ∷ 0 ∷ 0 ∷ 0
    ∷ 24 ∷ 45 ∷ 0 ∷ 234 ∷ 0 ∷ 43 ∷ 0 ∷ 0 ∷ 25 ∷ 73 ∷ 127 ∷ 234 ∷ 234 ∷ 60 ∷ 70 ∷ 70 ∷ 234 ∷ 234 ∷ 5
    ∷ 234 ∷ 219 ∷ 234 ∷ 234 ∷ 234 ∷ 234 ∷ 234 ∷ 234 ∷ 234 ∷ 234 ∷ 234 ∷ 234 ∷ 234 ∷ 234 ∷ 234 ∷ 234
    ∷ 234 ∷ 234 ∷ 234 ∷ 234 ∷ 234 ∷ 234 ∷ 234 ∷ 234 ∷ 234 ∷ 234 ∷ 234 ∷ 234 ∷ 234 ∷ 234 ∷ 234 ∷ 234
    ∷ 234 ∷ 234 ∷ 234 ∷ 234 ∷ 0 ∷ 27 ∷ 49 ∷ 50 ∷ 51 ∷ 52 ∷ 53 ∷ 54 ∷ 55 ∷ 56 ∷ 57 ∷ 48 ∷ 0 ∷ 43 ∷ 8
    ∷ 9 ∷ 65 ∷ 90 ∷ 69 ∷ 82 ∷ 84 ∷ 89 ∷ 85 ∷ 73 ∷ 79 ∷ 80 ∷ 137 ∷ 156 ∷ 10 ∷ 0 ∷ 81 ∷ 83 ∷ 68 ∷ 70
    ∷ 71 ∷ 72 ∷ 74 ∷ 75 ∷ 76 ∷ 77 ∷ 37 ∷ 234 ∷ 0 ∷ 230 ∷ 87 ∷ 88 ∷ 67 ∷ 86 ∷ 66 ∷ 78 ∷ 63 ∷ 46 ∷ 47
    ∷ 21 ∷ 0 ∷ 234 ∷ 0 ∷ 32 ∷ 0 ∷ 70 ∷ 70 ∷ 70 ∷ 70 ∷ 70 ∷ 70 ∷ 70 ∷ 70 ∷ 70 ∷ 72 ∷ 0 ∷ 0 ∷ 0 ∷ 0
    ∷ 24 ∷ 45 ∷ 0 ∷ 63 ∷ 0 ∷ 43 ∷ 0 ∷ 0 ∷ 25 ∷ 73 ∷ 127 ∷ 63 ∷ 63 ∷ 62 ∷ 70 ∷ 70 ∷ 234 ∷ 234 ∷ 5
    ∷ 234 ∷ 219 ∷ 234 ∷ 234 ∷ 234 ∷ 234 ∷ 234 ∷ 234 ∷ 234 ∷ 234 ∷ 234 ∷ 234 ∷ 234 ∷ 234 ∷ 234 ∷ 234
    ∷ 234 ∷ 234 ∷ 234 ∷ 234 ∷ 234 ∷ 234 ∷ 234 ∷ 234 ∷ 234 ∷ 234 ∷ 234 ∷ 234 ∷ 234 ∷ 234 ∷ 234 ∷ 234
    ∷ 234 ∷ 234 ∷ 234 ∷ 234 ∷ []

-- The state of the modifier keys: `k_shift_count`, `k_shift`, `k_meta`, `k_ctrl`, `k_lights`,
-- `k_dead_hat` and `k_dead_trema`. Numbers are unsigned bytes; `k_shift` is a `bool` that is
-- computed with, so it is a byte too.
pub record Keys : Type 0 where
  pub k_shift_count : ℕ
  pub k_shift : ℕ
  pub k_meta : ℕ
  pub k_ctrl : ℕ
  pub k_lights : ℕ
  pub k_dead_hat : Bool
  pub k_dead_trema : Bool

-- The globals as they are initialised.
unfoldable pub initial_keys : Keys
initial_keys = record {
  k_shift_count = 0;
  k_shift = 0;
  k_meta = 0;
  k_ctrl = 0;
  k_lights = 0;
  k_dead_hat = false;
  k_dead_trema = false;
}

-- The calls that the handlers make: `keyboard_set_lights`, `write_char` and `write_string`
-- or the shell's functions of the same name, `set_cursor_pos`, the shell's cursor keys,
-- and the message of Ctrl-C.
pub data Event : Type 0 where
  set_lights : ℕ → Event
  write_char : ℕ → Event
  write_string : List ℕ → Event
  set_cursor_pos : ℕ → Event
  shell_home shell_up shell_left shell_right shell_end shell_down : Event
  process_interrupted : Event

abbrev increment : ℕ → ℕ
increment n = (n + 1) % 256

abbrev decrement : ℕ → ℕ
decrement n = (n + 255) % 256

-- A shift key is released.
unfoldable pub shift_up : Keys → Keys
shift_up k =
    let count = decrement k.k_shift_count in
    record k { k_shift_count = count; k_shift = bit_xor (bit_and k.k_lights 4 / 4) count }

-- A shift key is pressed.
unfoldable pub shift_down : Keys → Keys
shift_down k = record k {
  k_shift_count = increment k.k_shift_count;
  k_shift = bit_xor (bit_and k.k_lights 4) 4 / 4;
}

-- The switch on a key that is released, which every handler has.
unfoldable pub release : ℕ → Keys → Keys
release code k =
    if code == 29
    then record k { k_ctrl = decrement k.k_ctrl }
    else if code == 42
    then shift_up k
    else if code == 54
    then shift_up k
    else if code == 56
    then record k { k_meta = decrement k.k_meta }
    else k

-- `k_shift = !k_shift`, and the light of the caps lock.
unfoldable pub caps_lock : Keys → Keys
caps_lock k = record k {
  k_lights = bit_xor k.k_lights 4;
  k_shift = if k.k_shift == 0 then 1 else 0;
}

-- The key `^`, with what it writes on the second press.
unfoldable pub dead_key : List Event → Keys → Keys × List Event
dead_key twice k =
    if is_true k.k_shift
    then (record k { k_dead_hat = false; k_dead_trema = true }, [])
    else if k.k_dead_hat
    then (record k { k_dead_hat = false }, twice)
    else (record k { k_dead_hat = true }, [])

-- The character of a key: `none` where the index is past the table.
unfoldable pub key_char : ℕ → Keys → Option ℕ
key_char scancode k = get_elem? kbdus (scancode + k.k_shift * 128)

-- A character under a dead `^`, then under a dead trema; the strings are UTF-8.
unfoldable pub with_hat : ℕ → Event
with_hat c =
    if c == 97
    then write_string (0xc3 ∷ 0xa2 ∷ [])
    else if c == 101
    then write_string (0xc3 ∷ 0xaa ∷ [])
    else if c == 105
    then write_string (0xc3 ∷ 0xae ∷ [])
    else if c == 111
    then write_string (0xc3 ∷ 0xb4 ∷ [])
    else if c == 117
    then write_string (0xc3 ∷ 0xbb ∷ [])
    else write_char c

unfoldable pub with_trema : ℕ → Event
with_trema c =
    if c == 97
    then write_string (0xc3 ∷ 0xa4 ∷ [])
    else if c == 101
    then write_string (0xc3 ∷ 0xab ∷ [])
    else if c == 105
    then write_string (0xc3 ∷ 0xaf ∷ [])
    else if c == 111
    then write_string (0xc3 ∷ 0xb6 ∷ [])
    else if c == 117
    then write_string (0xc3 ∷ 0xbc ∷ [])
    else if c == 121
    then write_string (0xc3 ∷ 0xbf ∷ [])
    else if c == 65
    then write_string (0xc3 ∷ 0x84 ∷ [])
    else if c == 79
    then write_string (0xc3 ∷ 0x96 ∷ [])
    else if c == 85
    then write_string (0xc3 ∷ 0x9c ∷ [])
    else write_char c

-- The default case: the character is written, and dead keys are spent.
unfoldable pub type_char : Keys → ℕ → Keys × List Event
type_char k c =
    let event : Event =
      if k.k_dead_hat then with_hat c else if k.k_dead_trema then with_trema c else write_char c in
    (record k { k_dead_hat = false; k_dead_trema = false }, event ∷ [])
