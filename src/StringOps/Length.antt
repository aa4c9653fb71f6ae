-- ===== src/StringOps/Length.antt =====
-- NUL-terminated strings: `strlen` finds the terminator, and `concat` joins two strings by a slash.
use os_2024_operatingsalsa.Base.{
  ℕ, zero, suc, ◌+◌, ◌-◌, ◌^◌, ◌≤◌, ◌<◌, ◌≡◌, ◌≢◌, ◌⊎◌, if◌then◌else◌, ◌==◌, Bytes, ℕ_discrete,
  true, false, eq→==, ne→==, store, arith,
}
use os_2024_operatingsalsa.StringOps.{strlen_loop, strlen, concat, move_up}
use os_2024_operatingsalsa.StringOps.Memory.{in_range}
use os_2024_operatingsalsa.StringOps.Move.{move_up_lem}

-- A string of `n` bytes starts at `s`.
pub record IsString (m : Bytes) (s n : ℕ) : Type 0 where
  pub inside : (j : ℕ) → j < n → m (s + j) ≢ 0
  pub terminator : m (s + n) ≡ 0

strlen_loop_lem :
    (fuel : ℕ) (m : Bytes) (s i n : ℕ)
    → IsString m s n
    → i ≤ n
    → n < i + fuel
    → strlen_loop fuel m s i ≡ n
unfolding strlen_loop
strlen_loop_lem zero m s i n v p q = absurd (omega arith)
strlen_loop_lem (suc fuel) m s i n v p q = elim (ℕ_discrete i n) [
  | yes e ↦ let z : (m (s + i) == 0) ≡ true = eq→== _ _ (rw e v.terminator) in rw z e
  | no e ↦
      let z : (m (s + i) == 0) ≡ false = ne→== _ _ (v.inside i (omega arith)) in
      rw z (strlen_loop_lem fuel m s (i + 1) n v (omega arith) (omega arith))
]

-- `strlen` ends at the terminator of a string in the address space.
pub strlen_lem : (m : Bytes) (s n : ℕ) → IsString m s n → n < 2 ^ 32 → strlen m s ≡ n
unfolding strlen
strlen_lem m s n v h = strlen_loop_lem (2 ^ 32) m s 0 n v (omega arith) (omega arith)

strlen_loop-IsString :
    (fuel : ℕ) (m : Bytes) (s i k : ℕ)
    → ((j : ℕ) → j < i → m (s + j) ≢ 0)
    → i ≤ k
    → m (s + k) ≡ 0
    → k < i + fuel
    → IsString m s (strlen_loop fuel m s i) × (strlen_loop fuel m s i ≤ k)
unfolding strlen_loop
strlen_loop-IsString zero m s i k h p z q = absurd (omega arith)
strlen_loop-IsString (suc fuel) m s i k h p z q = elim (ℕ_discrete (m (s + i)) 0) [
  | yes e ↦ rw (eq→== _ _ e) (record { inside = h; terminator = e }, p)
  | no n ↦
      rw (ne→== _ _ n)
        (strlen_loop-IsString fuel m s (i + 1) k (more n) (further n) z (omega arith))
]
  where
    more : m (s + i) ≢ 0 → (j : ℕ) → j < i + 1 → m (s + j) ≢ 0
    more n j w = elim (ℕ_discrete j i) [ yes e ↦ rw e n | no ne ↦ h j (omega arith) ]

    further : m (s + i) ≢ 0 → i + 1 ≤ k
    further n = elim (ℕ_discrete i k) [ yes e ↦ absurd (n (rw e z)) | no ne ↦ omega arith ]

-- A zero within `k` bytes bounds the length.
pub strlen-IsString :
    (m : Bytes) (s k : ℕ)
    → m (s + k) ≡ 0
    → k < 2 ^ 32
    → IsString m s (strlen m s) × (strlen m s ≤ k)
unfolding strlen
strlen-IsString m s k z h =
    strlen_loop-IsString (2 ^ 32) m s 0 k (λ j p. absurd (omega arith)) (omega arith) z
      (omega arith)

strlen_loop-scans :
    (fuel : ℕ) (m : Bytes) (s i : ℕ)
    → ((j : ℕ) → i ≤ j → j < strlen_loop fuel m s i → m (s + j) ≢ 0)
      × (strlen_loop fuel m s i < i + fuel → m (s + strlen_loop fuel m s i) ≡ 0)
unfolding strlen_loop
strlen_loop-scans zero m s i = (λ j p q. absurd (omega arith), λ h. absurd (omega arith))
strlen_loop-scans (suc fuel) m s i = elim (ℕ_discrete (m (s + i)) 0) [
  | yes e ↦ rw (eq→== _ _ e) (λ j p q. absurd (omega arith), λ h. e)
  | no n ↦
      let (inside, end) = strlen_loop-scans fuel m s (i + 1) in
      rw (ne→== _ _ n) (
        λ j p q. elim (ℕ_discrete j i) [ yes e ↦ rw e n | no ne ↦ inside j (omega arith) q ],
        λ h. end (omega arith),
      )
]

from_zero : (j : ℕ) → 0 ≤ j
from_zero j = omega arith

in_fuel : (n : ℕ) → n < 2 ^ 32 → n < 0 + 2 ^ 32
in_fuel n h = omega arith

-- Whatever the memory is, no byte before the one where `strlen` stops is zero, and that one is, unless there
-- is no zero at all.
pub strlen-scans :
    (m : Bytes) (s : ℕ)
    → ((j : ℕ) → j < strlen m s → m (s + j) ≢ 0) × (strlen m s < 2 ^ 32 → m (s + strlen m s) ≡ 0)
unfolding strlen
strlen-scans m s = (
  λ j h. (strlen_loop-scans (2 ^ 32) m s 0).0 j (from_zero j) h,
  λ h. (strlen_loop-scans (2 ^ 32) m s 0).1 (in_fuel _ h),
)

module _ (m : Bytes) (char1 char2 out n1 n2 : ℕ) (first : IsString m char1 n1)
    (second : IsString m char2 n2) (apart1 : (out ≤ char1) ⊎ (char1 + n1 ≤ out))
    (apart2 : (char2 + n2 < out) ⊎ (out + n1 + n2 + 1 < char2)) (fits : n1 + n2 < 2 ^ 31) where
  -- Each byte after `concat`: the first string, a slash, the second string and a terminator, with
  -- all else unchanged. `char1` may be the output itself, as in the shell's calls.
  concat_lem :
      (x : ℕ)
      → concat m char1 char2 out x ≡ (
          if in_range out n1 x
          then m (char1 + (x - out))
          else if x == (out + n1)
          then b'/'
          else if in_range (out + n1 + 1) n2 x
          then m (char2 + (x - (out + n1 + 1)))
          else if x == (out + n1 + n2 + 1)
          then 0
          else m x)
  unfolding concat
  concat_lem x =
      rw (strlen_lem m char1 n1 first (omega arith), strlen_lem m char2 n2 second (omega arith))
        (ground (arith, head x, tail x, head (char2 + (x - (out + n1 + 1)))))
    where
      m1 : Bytes
      m1 = move_up n1 0 m out char1

      head : (y : ℕ) → m1 y ≡ (if in_range out n1 y then m (char1 + (y - out)) else m y)
      head y = ground (arith, move_up_lem n1 0 m out char1 y (omega arith))

      m2 : Bytes
      m2 = store m1 (out + n1) b'/'

      tail :
          (y : ℕ)
          → move_up n2 0 m2 (out + n1 + 1) char2 y
            ≡ (if in_range (out + n1 + 1) n2 y then m2 (char2 + (y - (out + n1 + 1))) else m2 y)
      tail y = ground (arith, move_up_lem n2 0 m2 (out + n1 + 1) char2 y (omega arith))

  joined-IsString : IsString (concat m char1 char2 out) out (n1 + n2 + 1)
  joined-IsString = record { inside = nonzero; terminator = rw concat_lem (ground arith) }
    where
      nonzero : (j : ℕ) → j < n1 + n2 + 1 → concat m char1 char2 out (out + j) ≢ 0
      nonzero j h = rw concat_lem (ground (arith, first.inside j, second.inside (j - (n1 + 1))))

  -- For two strings of lengths with a sum below 2^31, the first starting at or behind the output or ending
  -- before it, and the second wholly outside of the area that is written, `concat` leaves one string in
  -- the output: the bytes of the first, a slash, and the bytes of the second. No byte outside of the
  -- output and its terminator has changed.
  pub concat-IsString :
      IsString (concat m char1 char2 out) out (n1 + n2 + 1)
      × ((j : ℕ) → j < n1 → concat m char1 char2 out (out + j) ≡ m (char1 + j))
      × (concat m char1 char2 out (out + n1) ≡ b'/')
      × ((j : ℕ) → j < n2 → concat m char1 char2 out (out + n1 + 1 + j) ≡ m (char2 + j))
      × ((x : ℕ) → (x < out) ⊎ (out + n1 + n2 + 1 < x) → concat m char1 char2 out x ≡ m x)
  concat-IsString = (
    joined-IsString,
    λ j h. ground (arith, concat_lem (out + j)),
    ground (arith, concat_lem (out + n1)),
    λ j h. ground (arith, concat_lem (out + n1 + 1 + j)),
    λ x h. ground (arith, concat_lem x),
  )
