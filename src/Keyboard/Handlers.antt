-- ===== src/Keyboard/Handlers.antt =====
-- The three handlers of src/keyboard.c: the one of the screen, and the one of the shell, with and
-- without a running program.
use mariobr_os.Base.{
  ℕ, ◌+◌, ◌-◌, ◌*◌, ◌/◌, ◌%◌, ◌^◌, true, false, not, ◌&&◌, Option, none, some, List, [], ◌∷◌, ◌++◌,
  ◌==◌, if◌then◌else◌, bit_and, bit_xor, is_true, ltb,
}
use mariobr_os.LinkedList.{pop, is_empty_list}
use mariobr_os.Scheduler.{Sched}
use mariobr_os.Syscall.{kill_family}
use mariobr_os.Keyboard.{
  Keys, Event, set_lights, write_char, set_cursor_pos, shell_home, shell_up, shell_left,
  shell_right, shell_end, shell_down, process_interrupted, increment, shift_down, caps_lock,
  dead_key, key_char, type_char, release,
}

-- A 16-bit position on the screen, moved by the cursor keys. The subtraction is on `int`, whose
-- remainder is negative above the first row, and the result is stored in 16 bits.
unfoldable pub move_back : ℕ → ℕ → ℕ
move_back pos d = if ltb pos d then 2 ^ 16 - (d - pos) else (pos - d) % 2000

-- A key that is pressed, in `keyboard_handler`. `pos` is what `get_cursor_pos` returns.
unfoldable pub screen_press : ℕ → ℕ → Keys → Option (Keys × List Event)
screen_press pos scancode k =
    if scancode == 26
    then some (dead_key (write_char 94 ∷ []) k)
    else if scancode == 29
    then some (record k { k_ctrl = increment k.k_ctrl }, [])
    else if scancode == 42
    then some (shift_down k, [])
    else if scancode == 54
    then some (shift_down k, [])
    else if scancode == 56
    then some (record k { k_meta = increment k.k_meta }, [])
    else if scancode == 58
    then some (caps_lock k, [])
    else if scancode == 69
    then some (record k { k_lights = bit_xor k.k_lights 2 }, set_lights (bit_xor k.k_lights 2) ∷ [])
    else if scancode == 70
    then some (record k { k_lights = bit_xor k.k_lights 1 }, set_lights (bit_xor k.k_lights 1) ∷ [])
    else if scancode == 71
    then some (k, set_cursor_pos (80 * (pos / 80)) ∷ [])
    else if scancode == 72
    then some (k, set_cursor_pos (move_back pos 80) ∷ [])
    else if scancode == 75
    then some (k, set_cursor_pos (move_back pos 1) ∷ [])
    else if scancode == 77
    then some (k, set_cursor_pos ((pos + 1) % 2000) ∷ [])
    else if scancode == 79
    then some (k, set_cursor_pos ((80 * (pos / 80 + 1) - 1) % 2 ^ 16) ∷ [])
    else if scancode == 80
    then some (k, set_cursor_pos ((pos + 80) % 2000) ∷ [])
    else elim (key_char scancode k) [ none ↦ none | some c ↦ some (type_char k c) ]

unfoldable pub keyboard_handler : ℕ → ℕ → Keys → Option (Keys × List Event)
keyboard_handler pos scancode k =
    if is_true (bit_and scancode 128)
    then some (release (bit_xor scancode 128) k, [])
    else screen_press pos scancode k

-- A key that is pressed while a program runs: only the modifiers change.
unfoldable pub busy_press : ℕ → Keys → Keys × List Event
busy_press scancode k =
    if scancode == 26
    then dead_key [] k
    else if scancode == 29
    then (record k { k_ctrl = increment k.k_ctrl }, [])
    else if scancode == 42
    then (shift_down k, [])
    else if scancode == 54
    then (shift_down k, [])
    else if scancode == 56
    then (record k { k_meta = increment k.k_meta }, [])
    else if scancode == 58
    then (caps_lock k, set_lights (bit_xor k.k_lights 4) ∷ [])
    else if scancode == 69
    then (record k { k_lights = bit_xor k.k_lights 2 }, set_lights (bit_xor k.k_lights 2) ∷ [])
    else if scancode == 70
    then (record k { k_lights = bit_xor k.k_lights 1 }, set_lights (bit_xor k.k_lights 1) ∷ [])
    else (k, [])

-- A key that is pressed in front of the shell.
unfoldable pub shell_press : ℕ → Keys → Option (Keys × List Event)
shell_press scancode k =
    if scancode == 26
    then some (dead_key (write_char 94 ∷ []) k)
    else if scancode == 29
    then some (record k { k_ctrl = increment k.k_ctrl }, [])
    else if scancode == 42
    then some (shift_down k, [])
    else if scancode == 54
    then some (shift_down k, [])
    else if scancode == 56
    then some (record k { k_meta = increment k.k_meta }, [])
    else if scancode == 58
    then some (caps_lock k, set_lights (bit_xor k.k_lights 4) ∷ [])
    else if scancode == 69
    then some (record k { k_lights = bit_xor k.k_lights 2 }, set_lights (bit_xor k.k_lights 2) ∷ [])
    else if scancode == 70
    then some (record k { k_lights = bit_xor k.k_lights 1 }, set_lights (bit_xor k.k_lights 1) ∷ [])
    else if scancode == 71
    then some (k, shell_home ∷ [])
    else if scancode == 72
    then some (k, shell_up ∷ [])
    else if scancode == 75
    then some (k, shell_left ∷ [])
    else if scancode == 77
    then some (k, shell_right ∷ [])
    else if scancode == 79
    then some (k, shell_end ∷ [])
    else if scancode == 80
    then some (k, shell_down ∷ [])
    else elim (key_char scancode k) [ none ↦ none | some c ↦ some (type_char k c) ]

-- Ctrl-C: the last program that the shell started is killed with its family, on fuel for the depth
-- of the family. `none` also where the table is read out of bounds.
unfoldable pub interrupt : ℕ → ℕ → Keys → Sched → Option (List Event × Sched)
interrupt fuel scancode k s =
    if is_true k.k_ctrl && not (is_true (bit_and scancode 128))
    then elim (key_char scancode k) [
      | none ↦ none
      | some c ↦ elim (c == 99) [
        | false ↦ some ([], s)
        | true ↦ elim (pop s.run_pid) [
          | none ↦ none
          | some (pid, left) ↦ elim (kill_family fuel pid (record s { run_pid = left })) [
            | none ↦ none
            | some s' ↦ some (process_interrupted ∷ [], s')
          ]
        ]
      ]
    ]
    else some ([], s)

unfoldable pub busy_keys : ℕ → Keys → Keys × List Event
busy_keys scancode k =
    if is_true (bit_and scancode 128)
    then (release (bit_xor scancode 128) k, [])
    else busy_press scancode k

unfoldable pub idle_keys : ℕ → Keys → Option (Keys × List Event)
idle_keys scancode k =
    if is_true (bit_and scancode 128)
    then some (release (bit_xor scancode 128) k, [])
    else shell_press scancode k

-- `keyboard_shell_handler`: the process table changes only where a program is interrupted.
unfoldable pub keyboard_shell_handler : ℕ → ℕ → Keys → Sched → Option (Keys × List Event × Sched)
keyboard_shell_handler fuel scancode k s =
    if is_empty_list s.run_pid
    then elim (idle_keys scancode k) [ none ↦ none | some (k', es) ↦ some (k', es, s) ]
    else (let r = busy_keys scancode k in
        elim (interrupt fuel scancode r.0 s) [
          | none ↦ none
          | some (es, s') ↦ some (r.0, r.1 ++ es, s')
        ])
