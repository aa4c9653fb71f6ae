-- ===== src/Ata/Device.antt =====
-- What the ATA documents say of a device with 28-bit block numbers, for the commands of src/disk.c: to read
-- sectors (0x20) and to write sectors (0x30).
use os_2024_operatingsalsa.Base.{
  refl, zero, suc, arith, some, eq→==, ◌+◌, ◌≡◌, ◌*◌, ◌<◌, ◌^◌, ◌≢◌, ◌==◌, true, false,
  if◌then◌else◌, ◌%◌, Bool-cases, inl, inr, ◌-◌, ◌∙◌, ne→==, ==→eq,
}
use os_2024_operatingsalsa.Ata.{
  Ports, ata_status_bsy, ata_status_rdy, ata_status_drq, wait_until, ata_busy_wait, ata_drq_wait, ℕ,
  Option, not, Bytes, Bool, bit_and, load16, store16,
}

-- The registers that a driver sets, the command under way with the place of its next word and the words that
-- are left, and the disk.
pub record View : Type 0 where
  pub drive : ℕ
  pub count : ℕ
  pub lba_low : ℕ
  pub lba_mid : ℕ
  pub lba_high : ℕ
  pub command : ℕ
  pub pos : ℕ
  pub left : ℕ
  pub disk : Bytes

-- The block number in the registers: the lower half of the drive's register is its highest part.
abbrev pub lba_of : View → ℕ
lba_of v = v.lba_low + v.lba_mid * 2 ^ 8 + v.lba_high * 2 ^ 16 + v.drive % 2 ^ 4 * 2 ^ 24

module _ {State : Type 0} (ports : Ports State) where
  -- The state after that many polls of the status.
  abbrev pub polls : ℕ → State → State
  polls zero s = s
  polls (suc n) s = polls n (ports.in8 0x1F7 s).1

  abbrev pub status_after : ℕ → State → ℕ
  status_after n s = (ports.in8 0x1F7 (polls n s)).0

  abbrev pub poll_of : State → State
  poll_of s = (ports.in8 0x1F7 s).1

  -- Bit DRQ of the status: the device asks for a word, or offers one.
  abbrev pub request_of : State → ℕ
  request_of s = bit_and (status_after 0 s) ata_status_drq

  -- A device with these registers, commands and disk, which is at times busy. It takes register writes and commands only while
  -- it is not busy and DRQ is clear, and words only while it is not busy and DRQ is set. After the start
  -- of a command, and after the last word of a block, it may be busy.
  pub record IsAta (view : State → View) (busy : State → Bool) (latency : ℕ) : Type 0 where
    -- A poll changes nothing but that a busy device may have finished.
    pub poll : (s : State) → view (poll_of s) ≡ view s
    pub stays_free : (s : State) → busy s ≡ false → busy (poll_of s) ≡ false
    -- A clear bit BSY says that the device is not busy, and the bit is clear before `latency` polls are over.
    pub not_busy :
        (s : State) → (n : ℕ) × (n < latency) × (bit_and (status_after n s) ata_status_bsy ≡ 0)
    pub seen_free :
        (s : State) → bit_and (status_after 0 s) ata_status_bsy ≡ 0 → busy (poll_of s) ≡ false
    pub ready :
        (s : State)
        → busy s ≡ false
        → (n : ℕ) × (n < latency) × (bit_and (status_after n s) ata_status_rdy ≢ 0)
    -- DRQ is set while a command has words left, and clear otherwise.
    pub requests : (s : State) → busy s ≡ false → 0 < (view s).left → request_of s ≢ 0
    pub no_request : (s : State) → busy s ≡ false → (view s).left ≡ 0 → request_of s ≡ 0
    pub set_drive :
        (s : State) (v : ℕ)
        → busy s ≡ false
        → request_of s ≡ 0
        → (busy (ports.out8 0x1F6 v s) ≡ false)
          × (view (ports.out8 0x1F6 v s) ≡ record (view s) { drive = v })
    pub set_count :
        (s : State) (v : ℕ)
        → busy s ≡ false
        → request_of s ≡ 0
        → (busy (ports.out8 0x1F2 v s) ≡ false)
          × (view (ports.out8 0x1F2 v s) ≡ record (view s) { count = v })
    pub set_low :
        (s : State) (v : ℕ)
        → busy s ≡ false
        → request_of s ≡ 0
        → (busy (ports.out8 0x1F3 v s) ≡ false)
          × (view (ports.out8 0x1F3 v s) ≡ record (view s) { lba_low = v })
    pub set_mid :
        (s : State) (v : ℕ)
        → busy s ≡ false
        → request_of s ≡ 0
        → (busy (ports.out8 0x1F4 v s) ≡ false)
          × (view (ports.out8 0x1F4 v s) ≡ record (view s) { lba_mid = v })
    pub set_high :
        (s : State) (v : ℕ)
        → busy s ≡ false
        → request_of s ≡ 0
        → (busy (ports.out8 0x1F5 v s) ≡ false)
          × (view (ports.out8 0x1F5 v s) ≡ record (view s) { lba_high = v })
    pub start :
        (s : State) (v : ℕ)
        → busy s ≡ false
        → request_of s ≡ 0
        → view (ports.out8 0x1F7 v s) ≡ record (view s) {
          command = v;
          pos = 512 * lba_of (view s);
          left = 256 * (if (view s).count == 0 then 256 else (view s).count);
        }
    pub read_word :
        (s : State)
        → busy s ≡ false
        → request_of s ≢ 0
        → (view s).command ≡ 0x20
        → ((ports.in16 0x1F0 s).0 ≡ load16 (view s).disk (view s).pos)
          × (view (ports.in16 0x1F0 s).1
              ≡ record (view s) { pos = (view s).pos + 2; left = (view s).left - 1 })
    pub write_word :
        (s : State) (v : ℕ)
        → busy s ≡ false
        → request_of s ≢ 0
        → (view s).command ≡ 0x30
        → view (ports.out16 0x1F0 v s) ≡ record (view s) {
          disk = store16 (view s).disk (view s).pos v;
          pos = (view s).pos + 2;
          left = (view s).left - 1;
        }
    -- Within a block the next word is there at once.
    pub within_read :
        (s : State)
        → busy s ≡ false
        → ((view s).left - 1) % 256 ≢ 0
        → busy (ports.in16 0x1F0 s).1 ≡ false
    pub within_write :
        (s : State) (v : ℕ)
        → busy s ≡ false
        → ((view s).left - 1) % 256 ≢ 0
        → busy (ports.out16 0x1F0 v s) ≡ false

  module _ (view : State → View) (busy : State → Bool) (latency : ℕ)
      (ata : IsAta view busy latency) where
    -- The wait returns from a poll that passed the test.
    abbrev Waited : (ℕ → Bool) → State → Option State → Type 0
    Waited test s o =
        (s0 : State) × (o ≡ some (poll_of s0))
        × (view (poll_of s0) ≡ view s)
        × (test (status_after 0 s0) ≡ true)
        × (busy s ≡ false → busy (poll_of s0) ≡ false)

    wait_until-returns :
        (test : ℕ → Bool) (fuel n : ℕ) (s : State)
        → n < fuel
        → test (status_after n s) ≡ true
        → Waited test s (wait_until ports test fuel s)
    unfolding wait_until
    wait_until-returns test zero n s h e = absurd (omega arith)
    wait_until-returns test (suc fuel) zero s h e = rw e (s, refl, ata.poll s, e, ata.stays_free s)
    wait_until-returns test (suc fuel) (suc n) s h e =
        elim (Bool-cases (test (ports.in8 0x1F7 s).0)) [
          | inl y ↦ rw y (s, refl, ata.poll s, y, ata.stays_free s)
          | inr f ↦
              let (s0, returns, same, passed, free) =
                wait_until-returns test fuel n (poll_of s) (omega arith) e in
              rw f (s0, returns, same ∙ ata.poll s, passed, λ z. free (ata.stays_free s z))
        ]

    -- After the first wait the device is not busy, and after the second one it still is not.
    abbrev pub IsFreeAfter : State → Option State → Type 0
    IsFreeAfter s o = (s1 : State) × (o ≡ some s1) × (view s1 ≡ view s) × (busy s1 ≡ false)

    pub ata_busy_wait-returns : (s : State) → IsFreeAfter s (ata_busy_wait ports latency s)
    unfolding ata_busy_wait
    ata_busy_wait-returns s =
        let (n, l, e) = ata.not_busy s in
        let (s0, returns, same, passed, free) =
          wait_until-returns (λ status. bit_and status ata_status_bsy == 0) latency n s l
            (eq→== _ _ e) in
        (poll_of s0, returns, same, ata.seen_free s0 (==→eq _ _ passed))

    pub ata_drq_wait-returns :
        (s : State) → busy s ≡ false → IsFreeAfter s (ata_drq_wait ports latency s)
    unfolding ata_drq_wait
    ata_drq_wait-returns s z =
        let (n, l, e) = ata.ready s z in
        let (s0, returns, same, passed, free) =
          wait_until-returns (λ status. not (bit_and status ata_status_rdy == 0)) latency n s l
            (rw (ne→== _ _ e) refl) in
        (poll_of s0, returns, same, free z)
