-- ===== src/Ata/Refinement.antt =====
-- The driver against the image of src/external/external-inserter.c: both `read_blocks` and both
-- `write_blocks` transfer the same blocks.
use os_2024_operatingsalsa.Base.{
  ◌>>=◌, refl, arith, some, ◌≡◌, ◌<◌, ◌≤◌, ◌+◌, ◌*◌, ◌∙◌, sym, ap, ℕ, Bytes, u8, bit_or, bit_and,
  ◌^◌, ◌/◌, ◌%◌, false,
}
use os_2024_operatingsalsa.Base.Bits.{bit_and-mask, bit_or-shift}
use os_2024_operatingsalsa.Disk.{read_blocks, write_blocks}
use os_2024_operatingsalsa.Disk.Laws.{read_blocks_lem, write_blocks_lem}
use os_2024_operatingsalsa.Ata.{
  Ports, start_command, ata_read_blocks, ata_write_blocks, Bool, ata_busy_wait, out_blocks,
  in_blocks,
}
use os_2024_operatingsalsa.Ata.Device.{View, IsAta, ata_busy_wait-returns, request_of}
use os_2024_operatingsalsa.Ata.Transfer.{IsAt, in_blocks-returns, out_blocks-returns}

drive_of : (q : ℕ) → q < 16 → u8 (bit_or (bit_and q 0xF) 0xE0) % 2 ^ 4 ≡ q
drive_of q h =
    let e : bit_and q 0xF ≡ q % 16 = bit_and-mask 4 q in
    let f : bit_or (q % 16) 0xE0 ≡ q % 16 + 0xE0 = bit_or-shift 4 (q % 16) 14 (omega arith) in
    rw (e, f) (omega arith)

address_back :
    (a : ℕ)
    → a < 2 ^ 28
    → u8 a
        + u8 (a / 2 ^ 8) * 2 ^ 8
        + u8 (a / 2 ^ 16) * 2 ^ 16
        + u8 (bit_or (bit_and (a / 2 ^ 24) 0xF) 0xE0) % 2 ^ 4 * 2 ^ 24
      ≡ a
address_back a h = rw (drive_of (a / 2 ^ 24) (omega arith)) (omega arith)

abbrev disk_of : View → Bytes
disk_of v = v.disk

abbrev left_of : View → ℕ
left_of v = v.left

module _ {State : Type 0} (ports : Ports State) (view : State → View) (busy : State → Bool)
    (latency : ℕ) (ata : IsAta ports view busy latency) where
  -- Ready for a command, with these registers.
  record IsIdle (s : State) (v : View) : Type 0 where
    pub free : busy s ≡ false
    pub shows : view s ≡ v
    pub done : v.left ≡ 0

  no_request : {s : State} {v : View} → IsIdle s v → request_of ports s ≡ 0
  no_request {s} h = ata.no_request s h.free (rw (sym h.shows) at h.done)

  -- What a write of a register leaves, by its law.
  IsIdle-set :
      {s s1 : State} {v : View}
      → (set : View → View) → IsIdle s v
      → (busy s1 ≡ false) × (view s1 ≡ set (view s))
      → (set v).left ≡ 0
      → IsIdle s1 (set v)
  IsIdle-set set h e z = record { free = e.0; shows = e.1 ∙ ap set h.shows; done = z }

  start_command-IsAt :
      (command a c : ℕ) (s : State)
      → a < 2 ^ 28
      → 0 < c
      → busy s ≡ false
      → (view s).left ≡ 0
      → IsAt (view (start_command ports command a c s)) command (view s).disk (512 * a) (256 * c)
  unfolding start_command
  start_command-IsAt command a c s h z free done =
      let d = u8 (bit_or (bit_and (a / 2 ^ 24) 0xF) 0xE0) in
      let i0 : IsIdle s (view s) = record { free = free; shows = refl; done = done } in
      let s1 = ports.out8 0x1F6 d s in
      let i1 =
        IsIdle-set {s1 = s1} (λ v. record v { drive = d }) i0
          (ata.set_drive s d free (no_request i0)) done in
      let s2 = ports.out8 0x1F2 c s1 in
      let i2 =
        IsIdle-set {s1 = s2} (λ v. record v { count = c }) i1
          (ata.set_count s1 c i1.free (no_request i1)) done in
      let s3 = ports.out8 0x1F3 (u8 a) s2 in
      let i3 =
        IsIdle-set {s1 = s3} (λ v. record v { lba_low = u8 a }) i2
          (ata.set_low s2 (u8 a) i2.free (no_request i2)) done in
      let s4 = ports.out8 0x1F4 (u8 (a / 2 ^ 8)) s3 in
      let i4 =
        IsIdle-set {s1 = s4} (λ v. record v { lba_mid = u8 (a / 2 ^ 8) }) i3
          (ata.set_mid s3 (u8 (a / 2 ^ 8)) i3.free (no_request i3)) done in
      let s5 = ports.out8 0x1F5 (u8 (a / 2 ^ 16)) s4 in
      let i5 =
        IsIdle-set {s1 = s5} (λ v. record v { lba_high = u8 (a / 2 ^ 16) }) i4
          (ata.set_high s4 (u8 (a / 2 ^ 16)) i4.free (no_request i4)) done in
      rw (ata.start s5 command i5.free (no_request i5), i5.shows)
        (record {
          same_command = refl;
          same_disk = refl;
          at = rw (address_back a h) refl;
          rest = ground arith;
        })

  -- A count of blocks below 256 is passed on as it is.
  read_count :
      (ram : Bytes) (ptr lba count : ℕ) (s : State)
      → count < 256
      → ata_read_blocks ports latency ram ptr lba count s ≡ (do
        s1 ← ata_busy_wait ports latency s
        in_blocks ports latency count ram ptr (start_command ports 0x20 lba count s1))
  unfolding ata_read_blocks
  read_count ram ptr lba count s h = let e : u8 count ≡ count = omega arith in rw e refl

  write_count :
      (ram : Bytes) (ptr lba count : ℕ) (s : State)
      → count < 256
      → ata_write_blocks ports latency ram ptr lba count s ≡ (do
        s1 ← ata_busy_wait ports latency s
        out_blocks ports latency count 0 ram ptr (start_command ports 0x30 lba count s1))
  unfolding ata_write_blocks
  write_count ram ptr lba count s h = let e : u8 count ≡ count = omega arith in rw e refl

  -- Over a device that follows the ATA documents, with 28-bit block numbers, and no transfer under way, and
  -- for 1 to 255 blocks that end within the first 2^32 bytes of the disk, `read_blocks` of src/disk.c
  -- returns, with as many polls in each wait as the device's latency. It leaves in memory what
  -- `read_blocks` of the inserter leaves there on the same disk, the disk as it was, and no transfer
  -- under way.
  pub ata_read_blocks-refines :
      (ram : Bytes) (ptr lba count : ℕ) (s : State)
      → (view s).left ≡ 0
      → 0 < count
      → count < 256
      → 512 * (lba + count) ≤ 2 ^ 32
      → ((k : ℕ) → (view s).disk k < 256)
      → (ram1 : Bytes) × (s1 : State) × (ata_read_blocks ports latency ram ptr lba count s
          ≡ some (ram1, s1))
        × ((view s1).left ≡ 0)
        × ((view s1).disk ≡ (view s).disk)
        × ((x : ℕ) → ram1 x ≡ read_blocks (view s).disk ram ptr lba count x)
  ata_read_blocks-refines ram ptr lba count s none_left z w h b =
      let (s1, r1, v1, free) = ata_busy_wait-returns ports view busy latency ata s in
      let started = start_command ports 0x20 lba count s1 in
      let at =
        start_command-IsAt 0x20 lba count s1 (omega arith) z free (ap left_of v1 ∙ none_left) in
      let (ram1, s2, r2, ended, all) =
        in_blocks-returns ports view busy latency ata count ram ptr started (view s).disk
          (512 * lba) b (rw (sym (ap disk_of v1)) at) in
      (
        ram1,
        s2,
        read_count ram ptr lba count s w ∙ rw r1 r2,
        ended.rest,
        ended.same_disk,
        λ x. all x ∙ sym (read_blocks_lem (view s).disk ram ptr lba count x h),
      )

  -- Over such a device, with no transfer under way, and for such blocks, `write_blocks` of src/disk.c returns,
  -- and leaves on the disk what `write_blocks` of the inserter leaves there from the same memory, with
  -- no transfer under way.
  pub ata_write_blocks-refines :
      (ram : Bytes) (ptr lba count : ℕ) (s : State)
      → (view s).left ≡ 0
      → 0 < count
      → count < 256
      → 512 * (lba + count) ≤ 2 ^ 32
      → ((k : ℕ) → ram k < 256)
      → (s1 : State) × (ata_write_blocks ports latency ram ptr lba count s ≡ some s1)
        × ((view s1).left ≡ 0)
        × ((x : ℕ) → (view s1).disk x ≡ write_blocks (view s).disk ram ptr lba count x)
  ata_write_blocks-refines ram ptr lba count s none_left z w h b =
      let (s1, r1, v1, free) = ata_busy_wait-returns ports view busy latency ata s in
      let started = start_command ports 0x30 lba count s1 in
      let at =
        start_command-IsAt 0x30 lba count s1 (omega arith) z free (ap left_of v1 ∙ none_left) in
      let (s2, r2, ended, all) =
        out_blocks-returns ports view busy latency ata count 0 ram ptr started (view s).disk
          (512 * lba) b (rw (sym (ap disk_of v1)) at) in
      let e : ptr + 512 * 0 ≡ ptr = omega arith in
      (
        s2,
        write_count ram ptr lba count s w ∙ rw r1 r2,
        ended,
        λ x. all x ∙ rw e (sym (write_blocks_lem (view s).disk ram ptr lba count x h)),
      )
