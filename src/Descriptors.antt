-- ===== src/Descriptors.antt =====
-- The descriptor tables of src/gdt.c and src/idt.c. A bit field of n bits keeps a value modulo 2^n. The
-- addresses of the handlers and of the task state segment are arguments, as the linker sets them.
pub mod Gates
pub mod Segments
use os_2024_operatingsalsa.Base.{
  refl, zero, suc, Array, if◌then◌else◌, ℕ, ◌==◌, ◌%◌, ◌-◌, store, ◌+◌, bit_and, ◌^◌, u16, u8, ◌/◌,
  ◌*◌,
}

abbrev pub gdt_kernel_code_segment_selector : ℕ
gdt_kernel_code_segment_selector = 0x8

abbrev pub isr_stub_table_limit : ℕ
isr_stub_table_limit = 64

-- `_r_bit_1`, `_r_bit_2` and `_r_bit_3` are the bits that the processor reserves.
pub record IdtGate : Type 0 where
  pub offset_low : ℕ
  pub segment : ℕ
  pub reserved : ℕ
  pub r_bit_1 : ℕ
  pub r_bit_2 : ℕ
  pub gate_32 : ℕ
  pub r_bit_3 : ℕ
  pub dpl : ℕ
  pub valid_bit : ℕ
  pub offset_high : ℕ

abbrev pub Idt : Type 0
Idt = Array IdtGate

-- `interrupt_descriptor_table = { .table = {} }`.
abbrev pub empty_idt : Idt
empty_idt x = record {
  offset_low = 0;
  segment = 0;
  reserved = 0;
  r_bit_1 = 0;
  r_bit_2 = 0;
  gate_32 = 0;
  r_bit_3 = 0;
  dpl = 0;
  valid_bit = 0;
  offset_high = 0;
}

unfoldable pub set_interrupt_gate : ℕ → ℕ → ℕ → ℕ → Idt → Idt
set_interrupt_gate int_vector handler_address gdt_seg_selector privilege table =
    store table int_vector (record (table int_vector) {
      offset_low = u16 (bit_and handler_address 0xFFFF);
      segment = gdt_seg_selector;
      r_bit_1 = 0b000;
      r_bit_2 = 0b110;
      gate_32 = 1;
      r_bit_3 = 0b0;
      dpl = privilege % 2 ^ 2;
      valid_bit = 1;
      offset_high = u16 (bit_and (handler_address / 2 ^ 16) 0xFFFF);
    })

-- A loop of `initialize_idt` with the rounds that are left.
pub gate_loop : ℕ → ℕ → ℕ → Array ℕ → Idt → Idt
gate_loop zero i privilege isr_stub_table table = table
gate_loop (suc left) i privilege isr_stub_table table =
    gate_loop left (i + 1) privilege isr_stub_table (
      set_interrupt_gate (u8 i) (isr_stub_table i) gdt_kernel_code_segment_selector privilege table)

unfoldable pub initialize_idt : Array ℕ → Idt → Idt
unfolding gate_loop
initialize_idt isr_stub_table table =
    gate_loop (isr_stub_table_limit - 0x30) 0x30 3 isr_stub_table
      (gate_loop isr_stub_table_limit 0 0 isr_stub_table table)

pub record SegmentDescriptor : Type 0 where
  pub segment_low : ℕ
  pub base_low : ℕ
  pub base_mid : ℕ
  pub type_bit : ℕ
  pub non_system : ℕ
  pub privilege : ℕ
  pub valid_bit : ℕ
  pub segment_high : ℕ
  pub avl : ℕ
  pub long_mode : ℕ
  pub opr_32_bit : ℕ
  pub granularity : ℕ
  pub base_high : ℕ

abbrev pub Gdt : Type 0
Gdt = Array SegmentDescriptor

-- A descriptor with base 0: its limit, type, level and flags.
abbrev pub flat_segment : ℕ → ℕ → ℕ → ℕ → ℕ → ℕ → ℕ → ℕ → SegmentDescriptor
flat_segment limit type_bit non_system privilege valid_bit long_mode opr_32_bit granularity =
    record {
      segment_low = limit % 2 ^ 16;
      base_low = 0;
      base_mid = 0;
      type_bit = type_bit;
      non_system = non_system;
      privilege = privilege;
      valid_bit = valid_bit;
      segment_high = limit / 2 ^ 16 % 2 ^ 4;
      avl = 0;
      long_mode = long_mode;
      opr_32_bit = opr_32_bit;
      granularity = granularity;
      base_high = 0;
    }

-- `sizeof(struct TSSEntry)`: 26 words.
abbrev pub tss_size : ℕ
tss_size = 104

unfoldable pub global_descriptor_table : Gdt
global_descriptor_table x =
    if x == 1
    then flat_segment 0xFFFFF 0xA 1 0 1 0 1 1
    else if x == 2
    then flat_segment 0xFFFFF 0x2 1 0 1 0 1 1
    else if x == 3
    then flat_segment 0xFFFFF 0xA 1 3 1 1 1 1
    else if x == 4
    then flat_segment 0xFFFFF 0x2 1 3 1 0 1 1
    else if x == 5
    then flat_segment tss_size 0x9 0 0 1 0 1 0
    else flat_segment 0 0 0 0 0 0 0 0

unfoldable pub gdt_install_tss : ℕ → Gdt → Gdt
gdt_install_tss base table = store table 5 (record (table 5) {
  base_high = bit_and base (0xFF * 2 ^ 24) / 2 ^ 24;
  base_mid = bit_and base (0xFF * 2 ^ 16) / 2 ^ 16;
  base_low = bit_and base 0xFFFF;
})
