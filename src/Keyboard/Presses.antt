-- ===== src/Keyboard/Presses.antt =====
-- How key presses and releases reach a reader through src/keyboard.c.
use os_2024_operatingsalsa.Base.{refl, ℕ, Bytes, ◌≤◌, ◌≡◌, arith, nth-length, ◌++◌, ◌∷◌}
use os_2024_operatingsalsa.Pic.{pic_ack}
use os_2024_operatingsalsa.Keyboard.{
  KeyboardDriverState, keyboard_isr, get_keyboard_buffer, keyboard_state_activate,
  keyboard_state_deactivate, keyboard_scancode_1_to_ascii_map, row_0, row_1, row_2, row_3, row_4,
  Outs,
}

-- Every code of a key that is released has the value 0.
released : (scancode : ℕ) → 128 ≤ scancode → keyboard_scancode_1_to_ascii_map scancode ≡ 0
unfolding keyboard_scancode_1_to_ascii_map
released scancode h = nth-length (row_0 ++ row_1 ++ row_2 ++ row_3 ++ row_4) scancode (omega arith)

module _ (k : KeyboardDriverState) (press : ℕ) (ram : Bytes) (buf : ℕ) (outs : Outs) where
  abbrev pub pressed : KeyboardDriverState
  pressed = (keyboard_isr press outs (keyboard_state_activate k)).0

  -- With the input on, the character of a key that is pressed is what the next call of
  -- `get_keyboard_buffer` stores, and the call after it stores 0. With the input off, a press changes
  -- nothing. Each press is acknowledged to the first controller.
  pub get_keyboard_buffer-isr :
      let (ram1, k1) = get_keyboard_buffer buf ram pressed in
      let off = keyboard_state_deactivate k in
      (ram1 buf ≡ keyboard_scancode_1_to_ascii_map press)
      × (((get_keyboard_buffer buf ram1 k1).0) buf ≡ 0)
      × (keyboard_isr press outs off ≡ (off, (0x20, 0x20) ∷ outs))
      × ((keyboard_isr press outs (keyboard_state_activate k)).1 ≡ (0x20, 0x20) ∷ outs)
  unfolding keyboard_isr get_keyboard_buffer keyboard_state_activate keyboard_state_deactivate
      pic_ack
  get_keyboard_buffer-isr = (ground arith, ground arith, refl, refl)

  -- The buffer holds one character: a release of any key before the next call of
  -- `get_keyboard_buffer` overwrites the character of a press by 0.
  pub get_keyboard_buffer-release :
      (release : ℕ)
      → 128 ≤ release
      → ((get_keyboard_buffer buf ram ((keyboard_isr release outs pressed).0)).0) buf ≡ 0
  unfolding keyboard_isr get_keyboard_buffer keyboard_state_activate
  get_keyboard_buffer-release release h = ground (arith, released release h)
