-- ===== src/Ata.antt =====
-- The disk driver src/disk.c, over a device that answers at the ports. The fuel of a wait bounds its
-- polls: the source waits without a bound.
pub mod Device
pub mod Transfer
pub mod Refinement
use os_2024_operatingsalsa.Base.{
  refl, zero, suc, some, none, ◌>>=◌, ℕ, u8, Bytes, Bool, Option, bit_and, if◌then◌else◌, not, ◌+◌,
  ◌/◌, bit_or, ◌^◌, store16, ◌==◌, ◌*◌, load16,
}
use os_2024_operatingsalsa.Disk.{block_size}

-- `in`, `out`, `in16` and `out16` of src/portio.c on a device.
pub record Ports (State : Type 0) : Type 0 where
  pub in8 : ℕ → State → ℕ × State
  pub out8 : ℕ → ℕ → State → State
  pub in16 : ℕ → State → ℕ × State
  pub out16 : ℕ → ℕ → State → State

abbrev pub ata_status_bsy : ℕ
ata_status_bsy = 0x80

abbrev pub ata_status_rdy : ℕ
ata_status_rdy = 0x40

abbrev pub ata_status_drq : ℕ
ata_status_drq = 0x08

abbrev pub half_block_size : ℕ
half_block_size = block_size / 2

module _ {State : Type 0} (ports : Ports State) where
  -- Polls the status until the test holds.
  pub wait_until : (ℕ → Bool) → ℕ → State → Option State
  wait_until test zero s = none
  wait_until test (suc fuel) s =
      let (status, s1) = ports.in8 0x1F7 s in
      let rest = wait_until test fuel s1 in if test status then some s1 else rest

  pub ata_busy_wait : ℕ → State → Option State
  ata_busy_wait fuel s = wait_until (λ status. bit_and status ata_status_bsy == 0) fuel s

  pub ata_drq_wait : ℕ → State → Option State
  ata_drq_wait fuel s = wait_until (λ status. not (bit_and status ata_status_rdy == 0)) fuel s

  -- The six writes that start a command.
  pub start_command : ℕ → ℕ → ℕ → State → State
  start_command command logical_block_address block_count s =
      let s1 =
        ports.out8 0x1F6 (u8 (bit_or (bit_and (logical_block_address / 2 ^ 24) 0xF) 0xE0)) s in
      let s2 = ports.out8 0x1F2 block_count s1 in
      let s3 = ports.out8 0x1F3 (u8 logical_block_address) s2 in
      let s4 = ports.out8 0x1F4 (u8 (logical_block_address / 2 ^ 8)) s3 in
      let s5 = ports.out8 0x1F5 (u8 (logical_block_address / 2 ^ 16)) s4 in
      ports.out8 0x1F7 command s5

  -- `target[j] = in16(0x1F0)`, with the words that are left.
  pub in_words : ℕ → ℕ → Bytes → ℕ → State → Bytes × State
  in_words zero j ram target s = (ram, s)
  in_words (suc left) j ram target s =
      let (word, s1) = ports.in16 0x1F0 s in
      in_words left (j + 1) (store16 ram (target + 2 * j) word) target s1

  -- `target` is the byte address of the next block.
  pub in_blocks : ℕ → ℕ → Bytes → ℕ → State → Option (Bytes × State)
  in_blocks fuel zero ram target s = some (ram, s)
  in_blocks fuel (suc left) ram target s = do
    s1 ← ata_busy_wait fuel s
    s2 ← ata_drq_wait fuel s1
    let (ram1, s3) = in_words half_block_size 0 ram target s2
    in_blocks fuel left ram1 (target + block_size) s3

  -- `block_count` is a `uint8_t`.
  unfoldable pub ata_read_blocks : ℕ → Bytes → ℕ → ℕ → ℕ → State → Option (Bytes × State)
  unfolding start_command in_blocks
  ata_read_blocks fuel ram ptr logical_block_address block_count s =
      let count = u8 block_count in
      do
        s1 ← ata_busy_wait fuel s
        in_blocks fuel count ram ptr (start_command 0x20 logical_block_address count s1)

  pub out_words : ℕ → ℕ → Bytes → ℕ → State → State
  out_words zero j ram from s = s
  out_words (suc left) j ram from s =
      out_words left (j + 1) ram from (ports.out16 0x1F0 (load16 ram (from + 2 * j)) s)

  pub out_blocks : ℕ → ℕ → ℕ → Bytes → ℕ → State → Option State
  out_blocks fuel zero i ram ptr s = some s
  out_blocks fuel (suc left) i ram ptr s = do
    s1 ← ata_busy_wait fuel s
    s2 ← ata_drq_wait fuel s1
    out_blocks fuel left (i + 1) ram ptr (out_words half_block_size 0 ram (ptr + block_size * i) s2)

  unfoldable pub ata_write_blocks : ℕ → Bytes → ℕ → ℕ → ℕ → State → Option State
  unfolding start_command out_blocks
  ata_write_blocks fuel ram ptr logical_block_address block_count s =
      let count = u8 block_count in
      do
        s1 ← ata_busy_wait fuel s
        out_blocks fuel count 0 ram ptr (start_command 0x30 logical_block_address count s1)
