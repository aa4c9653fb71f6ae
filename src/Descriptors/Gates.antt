-- ===== src/Descriptors/Gates.antt =====
-- The gates that `initialize_idt` of src/idt.c sets.
use os_2024_operatingsalsa.Base.{
  refl, zero, suc, arith, Array, ℕ, ◌<◌, ◌+◌, ◌≤◌, ◌^◌, ◌*◌, ◌⊎◌, ◌≡◌, ℕ_discrete, u16, u8, inl,
  bit_and, ◌∙◌, store_ne, ◌%◌, ◌/◌, ◌==◌, true, eq→==, ne→==, inr,
}
use os_2024_operatingsalsa.Base.Bits.{bit_and-mask}
use os_2024_operatingsalsa.Descriptors.{
  IdtGate, Idt, empty_idt, set_interrupt_gate, gate_loop, initialize_idt,
}

-- The upper 32 bits of a gate but for the high half of the offset, in the order of the fields of
-- `struct IDTGate`.
unfoldable pub access_word : IdtGate → ℕ
access_word g =
    g.reserved
    + g.r_bit_1 * 2 ^ 5
    + g.r_bit_2 * 2 ^ 8
    + g.gate_32 * 2 ^ 11
    + g.r_bit_3 * 2 ^ 12
    + g.dpl * 2 ^ 13
    + g.valid_bit * 2 ^ 15

-- A 32-bit interrupt gate of the kernel's code segment to this address, for this level.
pub record IsGate (handler level : ℕ) (g : IdtGate) : Type 0 where
  pub offset : g.offset_low + g.offset_high * 2 ^ 16 ≡ handler
  pub segment : g.segment ≡ 8
  pub reserved : g.reserved ≡ 0
  pub access : access_word g ≡ 0x8E00 + level * 0x2000

set_interrupt_gate-IsGate :
    (i handler level : ℕ) (t : Idt)
    → handler < 2 ^ 32
    → level < 4
    → (t i).reserved ≡ 0
    → IsGate handler level (set_interrupt_gate i handler 8 level t i)
unfolding set_interrupt_gate access_word
set_interrupt_gate-IsGate i handler level t h l z =
    let low : u16 (bit_and handler 0xFFFF) ≡ handler % 2 ^ 16 =
      rw (bit_and-mask 16 handler) (omega arith) in
    let high : u16 (bit_and (handler / 2 ^ 16) 0xFFFF) ≡ handler / 2 ^ 16 =
      rw (bit_and-mask 16 (handler / 2 ^ 16)) (omega arith) in
    let e : (i == i) ≡ true = eq→== i i refl in
    let d : level % 2 ^ 2 ≡ level = omega arith in
    rw e (record {
      offset = rw (low, high) (omega arith);
      segment = refl;
      reserved = z;
      access = rw (z, d) (omega arith);
    })

set_interrupt_gate-reserved :
    (i handler level : ℕ) (t : Idt)
    → ((y : ℕ) → (t y).reserved ≡ 0)
    → (y : ℕ) → (set_interrupt_gate i handler 8 level t y).reserved ≡ 0
unfolding set_interrupt_gate
set_interrupt_gate-reserved i handler level t r y = elim (ℕ_discrete y i) [
  | yes e ↦ rw (eq→== y i e) (r i)
  | no n ↦ rw (ne→== y i n) (r y)
]

gate_loop-outside :
    (left i level : ℕ) (isr : Array ℕ) (t : Idt) (x : ℕ)
    → i + left ≤ 256
    → (x < i) ⊎ (i + left ≤ x)
    → gate_loop left i level isr t x ≡ t x
unfolding gate_loop set_interrupt_gate
gate_loop-outside zero i level isr t x h o = refl
gate_loop-outside (suc left) i level isr t x h o =
    let z : u8 i ≡ i = omega arith in
    gate_loop-outside left (i + 1) level isr _ x (omega arith) (ground arith)
    ∙ rw z (store_ne t i x _ (ground arith))

module _ (isr : Array ℕ) (small : (i : ℕ) → isr i < 2 ^ 32) (level : ℕ) (l : level < 4) where
  gate_loop-inside :
      (left i : ℕ) (t : Idt) (x : ℕ)
      → i + left ≤ 256
      → ((y : ℕ) → (t y).reserved ≡ 0)
      → i ≤ x
      → x < i + left
      → IsGate (isr x) level (gate_loop left i level isr t x)
  unfolding gate_loop
  gate_loop-inside zero i t x h r p q = absurd (omega arith)
  gate_loop-inside (suc left) i t x h r p q = elim (ℕ_discrete x i) [
    | yes e ↦
        let z : u8 i ≡ i = omega arith in
        let v =
          gate_loop-outside left (i + 1) level isr (set_interrupt_gate i (isr i) 8 level t) i
            (omega arith) (inl (omega arith)) in
        rw (e, z, v) (set_interrupt_gate-IsGate i (isr i) level t (small i) l (r i))
    | no n ↦
        gate_loop-inside left (i + 1) _ x (omega arith)
          (set_interrupt_gate-reserved (u8 i) (isr i) level t r) (omega arith) (omega arith)
  ]

  gate_loop-reserved :
      (left i : ℕ) (t : Idt)
      → ((y : ℕ) → (t y).reserved ≡ 0)
      → (y : ℕ) → (gate_loop left i level isr t y).reserved ≡ 0
  unfolding gate_loop
  gate_loop-reserved zero i t r y = r y
  gate_loop-reserved (suc left) i t r y =
      gate_loop-reserved left (i + 1) _ (set_interrupt_gate-reserved (u8 i) (isr i) level t r) y

-- With handlers at addresses of 32 bits, each of the first 64 vectors has a 32-bit interrupt gate to its
-- handler: of level 0 below 0x30, so that no user program can call it, and of level 3 from 0x30 on. All
-- other gates stay empty.
pub initialize_idt-IsGate :
    (isr : Array ℕ)
    → ((i : ℕ) → isr i < 2 ^ 32)
    → ((x : ℕ) → x < 0x30 → IsGate (isr x) 0 (initialize_idt isr empty_idt x))
      × ((x : ℕ) → 0x30 ≤ x → x < 64 → IsGate (isr x) 3 (initialize_idt isr empty_idt x))
      × ((x : ℕ) → 64 ≤ x → initialize_idt isr empty_idt x ≡ empty_idt x)
unfolding initialize_idt
initialize_idt-IsGate isr small =
    let first = gate_loop 64 0 0 isr empty_idt in
    let r : (y : ℕ) → (first y).reserved ≡ 0 =
      gate_loop-reserved isr small 0 (omega arith) 64 0 empty_idt (λ y. refl) in
    (
      λ x h. rw (gate_loop-outside 16 0x30 3 isr first x (omega arith) (inl h)) (
          gate_loop-inside isr small 0 (omega arith) 64 0 empty_idt x (omega arith) (λ y. refl)
            (omega arith) (omega arith)),
      λ x p q. gate_loop-inside isr small 3 (omega arith) 16 0x30 first x (omega arith) r p q,
      λ x h.
          gate_loop-outside 16 0x30 3 isr first x (omega arith) (inr h)
          ∙ gate_loop-outside 64 0 0 isr empty_idt x (omega arith) (inr h),
    )
