-- ===== src/Tests/Ata.antt =====
-- The disk driver on a device.
use mathlib.Core.Bool.{false≢true}
use os_2024_operatingsalsa.Base.{
  sym, Bool, true, false, ◌≢◌, ◌%◌, bit_and, eq→==, ne→==, ℕ_discrete, refl, arith, some, ◌≡◌, ◌+◌,
  ◌*◌, ◌-◌, ℕ, Bytes, ◌==◌, if◌then◌else◌, load16, store16, bit_and, Bool, false, true, ◌%◌, ◌≢◌,
  ◌<◌, ℕ_discrete, eq→==, ne→==,
}
use os_2024_operatingsalsa.Disk.{read_blocks, write_blocks}
use os_2024_operatingsalsa.Ata.{
  Ports, ata_read_blocks, ata_write_blocks, ata_status_rdy, ata_status_bsy, ata_status_drq,
}
use os_2024_operatingsalsa.Ata.Device.{View, IsAta, lba_of, status_after, request_of}
use os_2024_operatingsalsa.Ata.Refinement.{ata_read_blocks-refines, ata_write_blocks-refines}

-- A device that is busy until the next poll after each command and after the last word of a block, and that
-- ignores what it gets while it is busy.
abbrev Device : Type 0
Device = View × Bool

abbrev register : ℕ → ℕ → View → View
register port v s =
    if port == 0x1F6
    then record s { drive = v }
    else if port == 0x1F2
    then record s { count = v }
    else if port == 0x1F3
    then record s { lba_low = v }
    else if port == 0x1F4
    then record s { lba_mid = v }
    else if port == 0x1F5
    then record s { lba_high = v }
    else s

abbrev started : ℕ → View → View
started v s = record s {
  command = v;
  pos = 512 * lba_of s;
  left = 256 * (if s.count == 0 then 256 else s.count);
}

abbrev out8_at : ℕ → ℕ → Device → Device
out8_at port v (s, true) = (s, true)
out8_at port v (s, false) =
    if port == 0x1F7 then (started v s, true) else (register port v s, false)

abbrev status_at : ℕ → Device → ℕ × Device
status_at port (s, true) = (ata_status_bsy, (s, false))
status_at port (s, false) = (if s.left == 0 then 0x40 else 0x48, (s, false))

-- At the end of a block.
abbrev pausing : View → Bool
pausing s = (s.left - 1) % 256 == 0

abbrev in16_at : ℕ → Device → ℕ × Device
in16_at port (s, true) = (0, (s, true))
in16_at port (s, false) =
    (load16 s.disk s.pos, (record s { pos = s.pos + 2; left = s.left - 1 }, pausing s))

abbrev out16_at : ℕ → ℕ → Device → Device
out16_at port v (s, true) = (s, true)
out16_at port v (s, false) =
    (record s { disk = store16 s.disk s.pos v; pos = s.pos + 2; left = s.left - 1 }, pausing s)

abbrev device : Ports Device
device = record { in8 = status_at; out8 = out8_at; in16 = in16_at; out16 = out16_at }

abbrev shows : Device → View
shows (s, b) = s

abbrev is_busy : Device → Bool
is_busy (s, b) = b

poll_shows : (s : Device) → shows (status_at 0x1F7 s).1 ≡ shows s
poll_shows (s, true) = refl
poll_shows (s, false) = refl

poll_frees : (s : Device) → is_busy (status_at 0x1F7 s).1 ≡ false
poll_frees (s, true) = refl
poll_frees (s, false) = refl

-- The status of a device that is not busy.
free_status :
    (n : ℕ)
    → (bit_and (if n == 0 then 0x40 else 0x48) ata_status_bsy ≡ 0)
      × (bit_and (if n == 0 then 0x40 else 0x48) ata_status_rdy ≢ 0)
      × (0 < n → bit_and (if n == 0 then 0x40 else 0x48) ata_status_drq ≢ 0)
      × (n ≡ 0 → bit_and (if n == 0 then 0x40 else 0x48) ata_status_drq ≡ 0)
free_status n = elim (ℕ_discrete n 0) [
  | yes e ↦ rw (eq→== n 0 e) (refl, (λ z. omega (arith, z)), (λ z. absurd (omega arith)), λ z. refl)
  | no e ↦
      rw (ne→== n 0 e) (refl, (λ z. omega (arith, z)), (λ z y. omega (arith, y)), λ z. absurd (e z))
]

clears_busy :
    (s : Device) → (n : ℕ) × (n < 2) × (bit_and (status_after device n s) ata_status_bsy ≡ 0)
clears_busy (s, true) = (1, omega arith, (free_status s.left).0)
clears_busy (s, false) = (0, omega arith, (free_status s.left).0)

is_ready :
    (s : Device)
    → is_busy s ≡ false
    → (n : ℕ) × (n < 2) × (bit_and (status_after device n s) ata_status_rdy ≢ 0)
is_ready (s, true) e = absurd (false≢true (sym e))
is_ready (s, false) e = (0, omega arith, (free_status s.left).1)

asks : (s : Device) → is_busy s ≡ false → 0 < (shows s).left → request_of device s ≢ 0
asks (s, true) e = absurd (false≢true (sym e))
asks (s, false) e = (free_status s.left).2

asks_not : (s : Device) → is_busy s ≡ false → (shows s).left ≡ 0 → request_of device s ≡ 0
asks_not (s, true) e = absurd (false≢true (sym e))
asks_not (s, false) e = (free_status s.left).3

sets :
    (port v : ℕ) (s : Device)
    → (port == 0x1F7) ≡ false
    → is_busy s ≡ false
    → (is_busy (out8_at port v s) ≡ false) × (shows (out8_at port v s) ≡ register port v (shows s))
sets port v (s, true) n e = absurd (false≢true (sym e))
sets port v (s, false) n e = rw n (refl, refl)

starts : (s : Device) (v : ℕ) → is_busy s ≡ false → shows (out8_at 0x1F7 v s) ≡ started v (shows s)
starts (s, true) v e = absurd (false≢true (sym e))
starts (s, false) v e = refl

reads :
    (s : Device)
    → is_busy s ≡ false
    → ((in16_at 0x1F0 s).0 ≡ load16 (shows s).disk (shows s).pos)
      × (shows (in16_at 0x1F0 s).1
          ≡ record (shows s) { pos = (shows s).pos + 2; left = (shows s).left - 1 })
reads (s, true) e = absurd (false≢true (sym e))
reads (s, false) e = (refl, refl)

writes :
    (s : Device) (v : ℕ)
    → is_busy s ≡ false
    → shows (out16_at 0x1F0 v s) ≡ record (shows s) {
      disk = store16 (shows s).disk (shows s).pos v;
      pos = (shows s).pos + 2;
      left = (shows s).left - 1;
    }
writes (s, true) v e = absurd (false≢true (sym e))
writes (s, false) v e = refl

goes_on :
    (s : Device) (v : ℕ)
    → is_busy s ≡ false
    → ((shows s).left - 1) % 256 ≢ 0
    → (is_busy (in16_at 0x1F0 s).1 ≡ false) × (is_busy (out16_at 0x1F0 v s) ≡ false)
goes_on (s, true) v e n = absurd (false≢true (sym e))
goes_on (s, false) v e n = (ne→== _ _ n, ne→== _ _ n)

device-IsAta : IsAta device shows is_busy 2
device-IsAta = record {
  poll = poll_shows;
  stays_free = λ s e. poll_frees s;
  not_busy = clears_busy;
  seen_free = λ s e. poll_frees s;
  ready = is_ready;
  requests = asks;
  no_request = asks_not;
  set_drive = λ s v e r. sets 0x1F6 v s refl e;
  set_count = λ s v e r. sets 0x1F2 v s refl e;
  set_low = λ s v e r. sets 0x1F3 v s refl e;
  set_mid = λ s v e r. sets 0x1F4 v s refl e;
  set_high = λ s v e r. sets 0x1F5 v s refl e;
  start = λ s v e r. starts s v e;
  read_word = λ s e r c. reads s e;
  write_word = λ s v e r c. writes s v e;
  within_read = λ s e n. (goes_on s 0 e n).0;
  within_write = λ s v e n. (goes_on s v e n).1;
}

abbrev sevens : View
sevens = record {
  drive = 0;
  count = 0;
  lba_low = 0;
  lba_mid = 0;
  lba_high = 0;
  command = 0;
  pos = 0;
  left = 0;
  disk = λ x. 7;
}

ata_read_blocks-refines_example :
    (ram1 : Bytes) × (s1 : Device) × (ata_read_blocks device 2 (λ x. 0) 4096 3 2 (sevens, true)
      ≡ some (ram1, s1))
    × ((shows s1).left ≡ 0)
    × ((shows s1).disk ≡ λ x. 7)
    × ((x : ℕ) → ram1 x ≡ read_blocks (λ x. 7) (λ x. 0) 4096 3 2 x)
ata_read_blocks-refines_example =
    ata_read_blocks-refines device shows is_busy 2 device-IsAta (λ x. 0) 4096 3 2 (sevens, true)
      refl (omega arith) (omega arith) (omega arith) (λ k. omega arith)

ata_write_blocks-refines_example :
    (s1 : Device) × (ata_write_blocks device 2 (λ x. 9) 4096 3 2 (sevens, true) ≡ some s1)
    × ((shows s1).left ≡ 0)
    × ((x : ℕ) → (shows s1).disk x ≡ write_blocks (λ x. 7) (λ x. 9) 4096 3 2 x)
ata_write_blocks-refines_example =
    ata_write_blocks-refines device shows is_busy 2 device-IsAta (λ x. 9) 4096 3 2 (sevens, true)
      refl (omega arith) (omega arith) (omega arith) (λ k. omega arith)
