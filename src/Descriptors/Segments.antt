-- ===== src/Descriptors/Segments.antt =====
-- The segments of src/gdt.c once the task state segment is installed.
use os_2024_operatingsalsa.Base.{
  refl, arith, ℕ, ◌<◌, ◌+◌, ◌^◌, ◌*◌, ◌/◌, ◌≡◌, ◌≢◌, bit_and, ◌≤◌, ◌%◌, ◌-◌, ne→==, ℕ_discrete,
}
use os_2024_operatingsalsa.Base.Bits.{bit_and-mask, bit_and-field}
use os_2024_operatingsalsa.Descriptors.{SegmentDescriptor, global_descriptor_table, gdt_install_tss}

-- The base and the limit of a descriptor, from their parts.
abbrev pub base_of : SegmentDescriptor → ℕ
base_of d = d.base_low + d.base_mid * 2 ^ 16 + d.base_high * 2 ^ 24

abbrev pub limit_of : SegmentDescriptor → ℕ
limit_of d = d.segment_low + d.segment_high * 2 ^ 16

parts : (base : ℕ) → base < 2 ^ 32 → base_of (gdt_install_tss base global_descriptor_table 5) ≡ base
unfolding gdt_install_tss global_descriptor_table
parts base h =
    let low : bit_and base 0xFFFF ≡ base % 2 ^ 16 = bit_and-mask 16 base in
    let mid : bit_and base (0xFF * 2 ^ 16) ≡ base / 2 ^ 16 % 2 ^ 8 * 2 ^ 16 =
      bit_and-field 16 8 base in
    let high : bit_and base (0xFF * 2 ^ 24) ≡ base / 2 ^ 24 % 2 ^ 8 * 2 ^ 24 =
      bit_and-field 24 8 base in
    rw (low, mid, high) (omega arith)

flat :
    (base x : ℕ)
    → 1 ≤ x
    → x ≤ 4
    → let d = gdt_install_tss base global_descriptor_table x in
      (base_of d ≡ 0) × (limit_of d ≡ 2 ^ 20 - 1)
unfolding gdt_install_tss global_descriptor_table
flat base x p q = elim (ℕ_discrete x 1) [
  | yes e ↦ rw e (refl, refl)
  | no n1 ↦ elim (ℕ_discrete x 2) [
    | yes e ↦ rw e (refl, refl)
    | no n2 ↦ elim (ℕ_discrete x 3) [
      | yes e ↦ rw e (refl, refl)
      | no n3 ↦ let e : x ≡ 4 = omega arith in rw e (refl, refl)
    ]
  ]
]

-- Once the task state segment at an address of 32 bits is installed, the descriptor of the selector 0x28
-- is a present 32-bit segment of level 0 with that base and a limit of 104, and every other descriptor
-- is the one of the source: those of the selectors 0x8 to 0x20 have base 0 and a limit of 2^20 - 1.
pub gdt_install_tss-base :
    (base : ℕ)
    → base < 2 ^ 32
    → let table = gdt_install_tss base global_descriptor_table in
      let tss = table (0x28 / 8) in
      (base_of tss ≡ base)
      × (limit_of tss ≡ 104)
      × (tss.type_bit ≡ 9)
      × (tss.valid_bit ≡ 1)
      × (tss.privilege ≡ 0)
      × ((x : ℕ) → x ≢ 5 → table x ≡ global_descriptor_table x)
      × ((x : ℕ)
          → 0x8 / 8 ≤ x
          → x ≤ 0x20 / 8
          → (base_of (table x) ≡ 0) × (limit_of (table x) ≡ 2 ^ 20 - 1))
unfolding gdt_install_tss global_descriptor_table
gdt_install_tss-base base h = (
  parts base h,
  refl,
  refl,
  refl,
  refl,
  λ x n. rw (ne→== x 5 n) refl,
  λ x p q. flat base x p (omega arith),
)
