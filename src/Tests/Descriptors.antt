-- ===== src/Tests/Descriptors.antt =====
-- Applications of the theorems about src/gdt.c and src/idt.c, and runs of the functions that set the kernel up.
use os_2024_operatingsalsa.Base.{arith, ◌≡◌, ℕ, ◌≢◌, ◌+◌, ◌<◌, ◌≤◌, ◌*◌, ◌^◌, ◌%◌, ◌-◌}
use os_2024_operatingsalsa.Descriptors.{
  empty_idt, initialize_idt, gdt_install_tss, global_descriptor_table,
}
use os_2024_operatingsalsa.Descriptors.Gates.{IsGate, initialize_idt-IsGate}
use os_2024_operatingsalsa.Descriptors.Segments.{gdt_install_tss-base, base_of, limit_of}

-- Handlers of sixteen bytes each in the kernel's half of the memory.
abbrev pub stubs : ℕ → ℕ
stubs i = (0xC0100000 + 16 * i) % 2 ^ 32

initialize_idt-IsGate_example :
    ((x : ℕ) → x < 0x30 → IsGate (stubs x) 0 (initialize_idt stubs empty_idt x))
    × ((x : ℕ) → 0x30 ≤ x → x < 64 → IsGate (stubs x) 3 (initialize_idt stubs empty_idt x))
    × ((x : ℕ) → 64 ≤ x → initialize_idt stubs empty_idt x ≡ empty_idt x)
initialize_idt-IsGate_example = initialize_idt-IsGate stubs (λ i. omega arith)

gdt_install_tss-base_example :
    let table = gdt_install_tss 0xC0123456 global_descriptor_table in
    (base_of (table 5) ≡ 0xC0123456)
    × (limit_of (table 5) ≡ 104)
    × ((table 5).type_bit ≡ 9)
    × ((table 5).valid_bit ≡ 1)
    × ((table 5).privilege ≡ 0)
    × ((x : ℕ) → x ≢ 5 → table x ≡ global_descriptor_table x)
    × ((x : ℕ) → 1 ≤ x → x ≤ 4 → (base_of (table x) ≡ 0) × (limit_of (table x) ≡ 2 ^ 20 - 1))
gdt_install_tss-base_example = gdt_install_tss-base 0xC0123456 (omega arith)
