-- ===== src/Ata/Transfer.antt =====
-- The words of a command and the blocks that they make up.
use os_2024_operatingsalsa.Base.{
  refl, zero, suc, arith, some, ◌≡◌, ◌<◌, ◌+◌, ◌*◌, if◌then◌else◌, ◌-◌, ℕ, store16, load16, Bytes,
  ◌∙◌, dec_lt, ℕ_discrete, Bool, false, ◌≤◌, ◌%◌, ◌≢◌,
}
use os_2024_operatingsalsa.StringOps.Memory.{in_range}
use os_2024_operatingsalsa.Ata.{Ports, in_words, in_blocks, out_words, out_blocks}
use os_2024_operatingsalsa.Ata.Device.{View, IsAta, ata_busy_wait-returns, ata_drq_wait-returns}

-- A command under way, on this disk, with the place of its next word and the words left.
pub record IsAt (v : View) (command : ℕ) (disk : Bytes) (pos left : ℕ) : Type 0 where
  pub same_command : v.command ≡ command
  pub same_disk : v.disk ≡ disk
  pub at : v.pos ≡ pos
  pub rest : v.left ≡ left

IsAt-same :
    {v w : View} {command : ℕ} {disk : Bytes} {pos left : ℕ}
    → w ≡ v
    → IsAt v command disk pos left
    → IsAt w command disk pos left
IsAt-same e h = rw e h

IsAt-shift :
    {v : View} {command : ℕ} {disk : Bytes} {pos pos1 left left1 : ℕ}
    → pos ≡ pos1
    → left ≡ left1
    → IsAt v command disk pos left
    → IsAt v command disk pos1 left1
IsAt-shift e f h = record {
  same_command = h.same_command;
  same_disk = h.same_disk;
  at = h.at ∙ e;
  rest = h.rest ∙ f;
}

IsAt-read :
    {v : View} {command : ℕ} {disk : Bytes} {pos left : ℕ}
    → IsAt v command disk pos (suc left)
    → IsAt (record v { pos = v.pos + 2; left = v.left - 1 }) command disk (pos + 2) left
IsAt-read h = record {
  same_command = h.same_command;
  same_disk = h.same_disk;
  at = omega (arith, h.at);
  rest = omega (arith, h.rest);
}

IsAt-write :
    {v : View} {command : ℕ} {disk : Bytes} {pos left : ℕ}
    → (w : ℕ) → IsAt v command disk pos (suc left)
    → IsAt
        (record v { disk = store16 v.disk v.pos w; pos = v.pos + 2; left = v.left - 1 })
        command
        (store16 disk pos w)
        (pos + 2)
        left
IsAt-write w h = record {
  same_command = h.same_command;
  same_disk = rw (h.same_disk, h.at) refl;
  at = omega (arith, h.at);
  rest = omega (arith, h.rest);
}

store16-word :
    (b d : Bytes) (x p y : ℕ)
    → ((k : ℕ) → d k < 256)
    → store16 b x (load16 d p) y ≡ (if in_range x 2 y then d (p + (y - x)) else b y)
unfolding store16 load16
store16-word b d x p y h = elim (ℕ_discrete y x) [
  | yes e ↦ let z : p + (x - x) ≡ p = omega arith in rw (e, z) (ground (arith, h p, h (p + 1)))
  | no n ↦ elim (ℕ_discrete y (x + 1)) [
    | yes e ↦
        let z : p + (x + 1 - x) ≡ p + 1 = omega arith in rw (e, z) (ground (arith, h p, h (p + 1)))
    | no m ↦ ground arith
  ]
]

-- A chunk of `q` bytes from `d`, and the `m` bytes behind it.
chunk_first :
    (b d : Bytes) (x p q m y : ℕ)
    → (if in_range (x + q) m y
        then d (p + q + (y - (x + q)))
        else if in_range x q y
        then d (p + (y - x))
        else b y)
      ≡ (if in_range x (q + m) y then d (p + (y - x)) else b y)
chunk_first b d x p q m y = elim (dec_lt y (x + q)) [
  | yes l ↦ ground arith
  | no l ↦ let e : p + q + (y - (x + q)) ≡ p + (y - x) = omega arith in rw e (ground arith)
]

word_first :
    (b d : Bytes) (x p n y : ℕ)
    → ((k : ℕ) → d k < 256)
    → (if in_range (x + 2) (2 * n) y then d (p + 2 + (y - (x + 2))) else store16 b x (load16 d p) y)
      ≡ (if in_range x (2 * suc n) y then d (p + (y - x)) else b y)
word_first b d x p n y h =
    let e : 2 * suc n ≡ 2 + 2 * n = omega arith in
    rw (store16-word b d x p y h, e) (chunk_first b d x p 2 (2 * n) y)

block_first :
    {v : ℕ}
    → (b d : Bytes) (x p n y : ℕ)
    → v ≡ (if in_range (x + 2 * 0) (2 * 256) y then d (p + (y - (x + 2 * 0))) else b y)
    → (if in_range (x + 512) (512 * n) y then d (p + 512 + (y - (x + 512))) else v)
      ≡ (if in_range x (512 * suc n) y then d (p + (y - x)) else b y)
block_first b d x p n y h =
    let z : x + 2 * 0 ≡ x = omega arith in
    let e : 512 * suc n ≡ 512 + 512 * n = omega arith in
    rw (h, z, e) (chunk_first b d x p 512 (512 * n) y)

block_behind :
    (b d : Bytes) (x p n y : ℕ)
    → (if in_range (x + 512) (512 * n) y
        then d (p + 512 + (y - (x + 512)))
        else if in_range x (2 * 256) y
        then d (p + (y - x))
        else b y)
      ≡ (if in_range x (512 * suc n) y then d (p + (y - x)) else b y)
block_behind b d x p n y =
    let e : 512 * suc n ≡ 512 + 512 * n = omega arith in rw e (chunk_first b d x p 512 (512 * n) y)

-- The count of words left before and after one of a block.
within : (left n l : ℕ) → left ≡ suc n + l → 0 < n → n < 256 → l % 256 ≡ 0 → (left - 1) % 256 ≢ 0
within left n l e p q z = omega (arith, e, p, q, z)

module _ {State : Type 0} (ports : Ports State) (view : State → View) (busy : State → Bool)
    (latency : ℕ) (ata : IsAta ports view busy latency) where
  in_words-IsAt :
      (n j : ℕ) (ram : Bytes) (target : ℕ) (s : State) (d : Bytes) (p l : ℕ)
      → ((k : ℕ) → d k < 256)
      → n ≤ 256
      → l % 256 ≡ 0
      → (0 < n → busy s ≡ false)
      → IsAt (view s) 0x20 d p (n + l)
      → IsAt (view (in_words ports n j ram target s).1) 0x20 d (p + 2 * n) l
        × ((x : ℕ)
            → (in_words ports n j ram target s).0 x ≡ (
                if in_range (target + 2 * j) (2 * n) x
                then d (p + (x - (target + 2 * j)))
                else ram x))
  unfolding in_words
  in_words-IsAt zero j ram target s d p l h m q f a =
      (IsAt-shift (omega arith) (omega arith) a, λ x. ground arith)
  in_words-IsAt (suc n) j ram target s d p l h m q f a =
      let free = f (omega arith) in
      let asks = ata.requests s free (omega (arith, a.rest)) in
      let (word, next) = ata.read_word s free asks a.same_command in
      let still : 0 < n → busy (ports.in16 0x1F0 s).1 ≡ false =
        λ z. ata.within_read s free (within (view s).left n l a.rest z (omega arith) q) in
      let w : (ports.in16 0x1F0 s).0 ≡ load16 d p = rw (word, a.same_disk, a.at) refl in
      let b : IsAt (view (ports.in16 0x1F0 s).1) 0x20 d (p + 2) (n + l) =
        IsAt-same next (IsAt-read (IsAt-shift {left1 = suc (n + l)} refl (omega arith) a)) in
      let (c, bytes) =
        in_words-IsAt n (j + 1) (store16 ram (target + 2 * j) (load16 d p)) target
          (ports.in16 0x1F0 s).1 d (p + 2) l h (omega arith) q still b in
      let e : target + 2 * (j + 1) ≡ target + 2 * j + 2 = omega arith in
      rw (w, in_words)
        (
          IsAt-shift (omega arith) refl c,
          λ x. bytes x ∙ rw e (word_first ram d (target + 2 * j) p n x h),
        )

  out_words-IsAt :
      (n j : ℕ) (ram : Bytes) (from : ℕ) (s : State) (d : Bytes) (p l : ℕ)
      → ((k : ℕ) → ram k < 256)
      → n ≤ 256
      → l % 256 ≡ 0
      → (0 < n → busy s ≡ false)
      → IsAt (view s) 0x30 d p (n + l)
      → (d1 : Bytes) × IsAt (view (out_words ports n j ram from s)) 0x30 d1 (p + 2 * n) l
        × ((x : ℕ) → d1 x ≡ (if in_range p (2 * n) x then ram (from + 2 * j + (x - p)) else d x))
  unfolding out_words
  out_words-IsAt zero j ram from s d p l h m q f a =
      (d, IsAt-shift (omega arith) (omega arith) a, λ x. ground arith)
  out_words-IsAt (suc n) j ram from s d p l h m q f a =
      let w = load16 ram (from + 2 * j) in
      let free = f (omega arith) in
      let asks = ata.requests s free (omega (arith, a.rest)) in
      let still : 0 < n → busy (ports.out16 0x1F0 w s) ≡ false =
        λ z. ata.within_write s w free (within (view s).left n l a.rest z (omega arith) q) in
      let b : IsAt (view (ports.out16 0x1F0 w s)) 0x30 (store16 d p w) (p + 2) (n + l) =
        IsAt-same (ata.write_word s w free asks a.same_command)
          (IsAt-write w (IsAt-shift {left1 = suc (n + l)} refl (omega arith) a)) in
      let (d1, c, bytes) =
        out_words-IsAt n (j + 1) ram from (ports.out16 0x1F0 w s) (store16 d p w) (p + 2) l h
          (omega arith) q still b in
      let e : from + 2 * (j + 1) ≡ from + 2 * j + 2 = omega arith in
      (
        d1,
        IsAt-shift (omega arith) refl c,
        λ x. bytes x ∙ rw e (word_first d ram p (from + 2 * j) n x h),
      )

  pub in_blocks-returns :
      (n : ℕ) (ram : Bytes) (target : ℕ) (s : State) (d : Bytes) (p : ℕ)
      → ((k : ℕ) → d k < 256)
      → IsAt (view s) 0x20 d p (256 * n)
      → (ram1 : Bytes) × (s1 : State) × (in_blocks ports latency n ram target s ≡ some (ram1, s1))
        × IsAt (view s1) 0x20 d (p + 512 * n) 0
        × ((x : ℕ) → ram1 x ≡ (if in_range target (512 * n) x then d (p + (x - target)) else ram x))
  unfolding in_blocks
  in_blocks-returns zero ram target s d p h a =
      (ram, s, refl, IsAt-shift (omega arith) (omega arith) a, λ x. ground arith)
  in_blocks-returns (suc n) ram target s d p h a =
      let (s1, r1, v1, free1) = ata_busy_wait-returns ports view busy latency ata s in
      let (s2, r2, v2, free2) = ata_drq_wait-returns ports view busy latency ata s1 free1 in
      let (c, bytes) =
        in_words-IsAt 256 0 ram target s2 d p (256 * n) h (omega arith) (omega arith) (λ z. free2)
          (IsAt-same (v2 ∙ v1) (IsAt-shift refl (omega arith) a)) in
      let (ram1, s3, r3, ended, all) =
        in_blocks-returns n (in_words ports 256 0 ram target s2).0 (target + 512)
          (in_words ports 256 0 ram target s2).1 d (p + 512) h c in
      (
        ram1,
        s3,
        rw (r1, r2) r3,
        IsAt-shift (omega arith) refl ended,
        λ x. all x ∙ block_first ram d target p n x (bytes x),
      )

  pub out_blocks-returns :
      (n i : ℕ) (ram : Bytes) (ptr : ℕ) (s : State) (d : Bytes) (p : ℕ)
      → ((k : ℕ) → ram k < 256)
      → IsAt (view s) 0x30 d p (256 * n)
      → (s1 : State) × (out_blocks ports latency n i ram ptr s ≡ some s1)
        × ((view s1).left ≡ 0)
        × ((x : ℕ)
            → (view s1).disk x
              ≡ (if in_range p (512 * n) x then ram (ptr + 512 * i + (x - p)) else d x))
  unfolding out_blocks
  out_blocks-returns zero i ram ptr s d p h a =
      (s, refl, omega (arith, a.rest), λ x. rw a.same_disk (ground arith))
  out_blocks-returns (suc n) i ram ptr s d p h a =
      let (s1, r1, v1, free1) = ata_busy_wait-returns ports view busy latency ata s in
      let (s2, r2, v2, free2) = ata_drq_wait-returns ports view busy latency ata s1 free1 in
      let (d1, c, bytes) =
        out_words-IsAt 256 0 ram (ptr + 512 * i) s2 d p (256 * n) h (omega arith) (omega arith)
          (λ z. free2) (IsAt-same (v2 ∙ v1) (IsAt-shift refl (omega arith) a)) in
      let (s3, r3, ended, all) =
        out_blocks-returns n (i + 1) ram ptr (out_words ports 256 0 ram (ptr + 512 * i) s2) d1
          (p + 512) h c in
      let e : ptr + 512 * (i + 1) ≡ ptr + 512 * i + 512 = omega arith in
      let z : ptr + 512 * i + 2 * 0 ≡ ptr + 512 * i = omega arith in
      (
        s3,
        rw (r1, r2) r3,
        ended,
        λ x. all x ∙ rw (e, bytes x, z) (block_behind d ram p (ptr + 512 * i) n x),
      )
