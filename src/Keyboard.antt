-- ===== src/Keyboard.antt =====
-- src/keyboard.c. The byte that `in(KEYBOARD_DATA_PORT)` gives is an argument of the interrupt routine.
pub mod Presses
use os_2024_operatingsalsa.Base.{
  refl, zero, suc, List, true, ℕ, Bool, false, ◌++◌, ◌∷◌, if◌then◌else◌, Bytes, [], store, nth,
}
use os_2024_operatingsalsa.Pic.{Outs, pic_ack}

pub record KeyboardDriverState : Type 0 where
  pub read_extended_mode : Bool
  pub keyboard_input_on : Bool
  pub keyboard_buffer : ℕ

-- The rows of `keyboard_scancode_1_to_ascii_map`, 16 codes each; from row 5 on all are 0.
abbrev row_0 : List ℕ
row_0 =
    0 ∷ 0x1B ∷ b'1' ∷ b'2' ∷ b'3' ∷ b'4' ∷ b'5' ∷ b'6' ∷ b'7' ∷ b'8' ∷ b'9' ∷ b'0' ∷ b'-' ∷ b'=' ∷ 8
    ∷ 9 ∷ []

abbrev row_1 : List ℕ
row_1 =
    b'q' ∷ b'w' ∷ b'e' ∷ b'r' ∷ b't' ∷ b'y' ∷ b'u' ∷ b'i' ∷ b'o' ∷ b'p' ∷ b'[' ∷ b']' ∷ 10 ∷ 0
    ∷ b'a' ∷ b's' ∷ []

abbrev row_2 : List ℕ
row_2 =
    b'd' ∷ b'f' ∷ b'g' ∷ b'h' ∷ b'j' ∷ b'k' ∷ b'l' ∷ b';' ∷ 39 ∷ b'`' ∷ 0 ∷ 92 ∷ b'z' ∷ b'x' ∷ b'c'
    ∷ b'v' ∷ []

abbrev row_3 : List ℕ
row_3 = b'b' ∷ b'n' ∷ b'm' ∷ b',' ∷ b'.' ∷ b'/' ∷ 0 ∷ b'*' ∷ 0 ∷ b' ' ∷ 0 ∷ 0 ∷ 0 ∷ 0 ∷ 0 ∷ 0 ∷ []

abbrev row_4 : List ℕ
row_4 = 0 ∷ 0 ∷ 0 ∷ 0 ∷ 0 ∷ 0 ∷ 0 ∷ 0 ∷ 0 ∷ 0 ∷ b'-' ∷ 0 ∷ 0 ∷ 0 ∷ b'+' ∷ 0 ∷ []

unfoldable pub keyboard_scancode_1_to_ascii_map : ℕ → ℕ
unfolding nth
keyboard_scancode_1_to_ascii_map scancode = nth (row_0 ++ row_1 ++ row_2 ++ row_3 ++ row_4) scancode

unfoldable pub keyboard_state_activate : KeyboardDriverState → KeyboardDriverState
keyboard_state_activate k = record k { keyboard_input_on = true }

unfoldable pub keyboard_state_deactivate : KeyboardDriverState → KeyboardDriverState
keyboard_state_deactivate k = record k { keyboard_input_on = false }

-- `*buf = keyboard_buffer; keyboard_buffer = 0`.
unfoldable pub get_keyboard_buffer : ℕ → Bytes → KeyboardDriverState → Bytes × KeyboardDriverState
get_keyboard_buffer buf ram k = (store ram buf k.keyboard_buffer, record k { keyboard_buffer = 0 })

abbrev irq_keyboard : ℕ
irq_keyboard = 1

unfoldable pub keyboard_isr : ℕ → Outs → KeyboardDriverState → KeyboardDriverState × Outs
keyboard_isr scancode outs k =
    let typed =
      if k.keyboard_input_on
      then record k { keyboard_buffer = keyboard_scancode_1_to_ascii_map scancode }
      else k in
    (typed, pic_ack irq_keyboard outs)
