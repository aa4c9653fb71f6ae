-- ===== src/Tests/Devices.antt =====
-- Applications of the theorems about the terminal and the keyboard, and runs of their functions.
use os_2024_operatingsalsa.Base.{
  refl, pos, ℕ, [], ◌≡◌, Bytes, if◌then◌else◌, false, arith, ◌<◌, ◌==◌, ◌≤◌, ◌*◌, ◌+◌, ◌/◌, ◌∷◌,
  ◌%◌, inl,
}
use os_2024_operatingsalsa.Terminal.{
  putchar, puts, Terminal, height, width, cursor_port_data, cursor_port_cmd,
}
use os_2024_operatingsalsa.Keyboard.{
  keyboard_isr, get_keyboard_buffer, keyboard_state_activate, keyboard_state_deactivate,
  keyboard_scancode_1_to_ascii_map, KeyboardDriverState,
}
use os_2024_operatingsalsa.Terminal.Puts.{IsBelow, puts-last_place}
use os_2024_operatingsalsa.Terminal.Cursor.{putchar-IsPut, next_row, next_col}
use os_2024_operatingsalsa.Keyboard.Presses.{get_keyboard_buffer-release, get_keyboard_buffer-isr}

abbrev pub blank : ℕ → ℕ
blank x = 0xF00

-- The character `a` in the last column of row 3.
abbrev pub last_column : Terminal
last_column = record { cells = blank; row = pos 3; col = pos 80; outs = [] }

putchar-IsPut_example :
    let after = putchar b'a' 15 last_column in
    (next_row b'a' 3 80 < height)
    × (next_col b'a' 3 80 ≤ width)
    × (after.row ≡ pos (next_row b'a' 3 80))
    × (after.col ≡ pos (next_col b'a' 3 80))
    × ((x : ℕ) → 2000 < x → after.cells x ≡ 0xF00)
    × (after.outs
        ≡ (cursor_port_data, (next_row b'a' 3 80 * width + next_col b'a' 3 80) / 256)
          ∷ (cursor_port_cmd, 0x0E)
          ∷ (cursor_port_data, (next_row b'a' 3 80 * width + next_col b'a' 3 80) % 256)
          ∷ (cursor_port_cmd, 0x0F)
          ∷ [])
putchar-IsPut_example =
    putchar-IsPut b'a' 15 3 80 blank [] (omega arith) (omega arith) (λ e. inl (omega arith))

-- "a", a line feed, and "b".
abbrev text : Bytes
text x = if x == 0 then b'a' else if x == 1 then 10 else b'b'

puts-last_place_example :
    IsBelow (puts text 0 3 15 (record { cells = blank; row = pos 24; col = pos 79; outs = [] }))
puts-last_place_example = puts-last_place text 0 1 15 blank [] (omega arith) refl

abbrev pub keyboard : KeyboardDriverState
keyboard = record { read_extended_mode = false; keyboard_input_on = false; keyboard_buffer = 0 }

get_keyboard_buffer-isr_example :
    let (ram1, k1) =
      get_keyboard_buffer 7 text ((keyboard_isr 0x1E [] (keyboard_state_activate keyboard)).0) in
    let off = keyboard_state_deactivate keyboard in
    (ram1 7 ≡ keyboard_scancode_1_to_ascii_map 0x1E)
    × (((get_keyboard_buffer 7 ram1 k1).0) 7 ≡ 0)
    × (keyboard_isr 0x1E [] off ≡ (off, (0x20, 0x20) ∷ []))
    × ((keyboard_isr 0x1E [] (keyboard_state_activate keyboard)).1 ≡ (0x20, 0x20) ∷ [])
get_keyboard_buffer-isr_example = get_keyboard_buffer-isr keyboard 0x1E text 7 []

get_keyboard_buffer-release_example :
    ((get_keyboard_buffer 7 text
        ((keyboard_isr 0x9E [] ((keyboard_isr 0x1E [] (keyboard_state_activate keyboard)).0)).0)).0)
      7
    ≡ 0
get_keyboard_buffer-release_example =
    get_keyboard_buffer-release keyboard 0x1E text 7 [] 0x9E (omega arith)

key_a : keyboard_scancode_1_to_ascii_map 0x1E ≡ b'a'
unfolding keyboard_scancode_1_to_ascii_map
key_a = refl
