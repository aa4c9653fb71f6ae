-- ===== src/Pic.antt =====
-- The interrupt controller in src/interrupt.c, and the writes to the ports that it shares with the other
-- drivers: they are kept as a list, the last pair first.
pub mod Order
use os_2024_operatingsalsa.Base.{
  refl, zero, suc, bit_or, List, ℕ, ◌∷◌, if◌then◌else◌, u8, leb, bit_and,
}

abbrev pub pic1_command : ℕ
pic1_command = 0x20

abbrev pub pic1_data : ℕ
pic1_data = 0x21

abbrev pub pic2_command : ℕ
pic2_command = 0xA0

abbrev pub pic2_data : ℕ
pic2_data = 0xA1

abbrev pub Outs : Type 0
Outs = List (ℕ × ℕ)

-- `out(port, data)` of the source.
abbrev pub out : ℕ → ℕ → Outs → Outs
out port value outs = (port, value) ∷ outs

abbrev pub io_wait : Outs → Outs
io_wait outs = out 0x80 0 outs

unfoldable pub pic_ack : ℕ → Outs → Outs
pic_ack irq outs =
    let o1 = if leb 8 irq then out pic2_command 0x20 outs else outs in out pic1_command 0x20 o1

unfoldable pub pic_remap : Outs → Outs
pic_remap outs =
    let o1 = io_wait (out pic1_command (bit_or 0x10 0x01) outs) in
    let o2 = io_wait (out pic2_command (bit_or 0x10 0x01) o1) in
    let o3 = io_wait (out pic1_data 0x20 o2) in
    let o4 = io_wait (out pic2_data 0x28 o3) in
    let o5 = io_wait (out pic1_data 0b0100 o4) in
    let o6 = io_wait (out pic2_data 0b0010 o5) in
    let o7 = io_wait (out pic1_data 0x01 o6) in
    let o8 = io_wait (out pic2_data 0x01 o7) in out pic2_data 0xFF (out pic1_data 0xFF o8)

-- `in(PIC1_DATA)` is the argument `mask`; `~(1 << IRQ_KEYBOARD)` is 0xFD on the byte that is written.
unfoldable pub activate_keyboard_interrupt : ℕ → Outs → Outs
activate_keyboard_interrupt mask outs = out pic1_data (u8 (bit_and mask 0xFFFFFFFD)) outs
