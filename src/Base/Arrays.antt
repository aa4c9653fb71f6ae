-- ===== src/Base/Arrays.antt =====
-- Arrays of C as functions of the index. Every theorem about an access states that the index lies
-- inside the array, or the array's operations are proved to keep it there.
use Prim.Native.Nat.{ℕ, zero, suc, ◌+◌, ◌<◌, ◌≤◌}
use mathlib.Core.Path.{◌≡◌, refl}
use mathlib.Core.Logic.{◌≢◌, inl, inr}
use mathlib.Core.Bool.{Bool, true}
use native.Mathlib.Omega.{arith}
use os_2024_operatingsalsa.Base.Tests.{◌==◌, if◌then◌else◌, Bool-cases}

abbrev pub Array {ℓ} : Type ℓ → Type ℓ
Array A = ℕ → A

-- A byte array: the memory, the disk image, or one buffer.
abbrev pub Bytes : Type 0
Bytes = Array ℕ

-- `a[i] = v`.
abbrev pub store {ℓ} : {A : Type ℓ} → Array A → ℕ → A → Array A
store a i v j = if j == i then v else a j

module _ {ℓ} {A : Type ℓ} where
  pub store_self : (a : Array A) (i : ℕ) (v : A) → store a i v i ≡ v
  store_self a i v = ground arith

  pub store_ne : (a : Array A) (i j : ℕ) (v : A) → j ≢ i → store a i v j ≡ a j
  store_ne a i j v h = ground arith

-- How many of the first `n` elements pass the test.
unfoldable pub count_if {ℓ} : {A : Type ℓ} → (A → Bool) → Array A → ℕ → ℕ
count_if p a zero = 0
count_if p a (suc n) = (if p (a n) then 1 else 0) + count_if p a n

module _ {ℓ} {A : Type ℓ} (p : A → Bool) where
  pub count_if-le : (a : Array A) (n : ℕ) → count_if p a n ≤ n
  unfolding count_if
  count_if-le a zero = omega arith
  count_if-le a (suc n) = ground (arith, count_if-le a n)

  -- A write past the counted range does not show.
  pub count_if-store_ge :
      (a : Array A) (i : ℕ) (v : A) (n : ℕ) → n ≤ i → count_if p (store a i v) n ≡ count_if p a n
  unfolding count_if
  count_if-store_ge a i v zero h = refl
  count_if-store_ge a i v (suc n) h = ground (arith, count_if-store_ge a i v n)

  -- A write changes the count by the tests of the old and the new value.
  pub count_if-store :
      (a : Array A) (i : ℕ) (v : A) (n : ℕ)
      → i < n
      → count_if p (store a i v) n + (if p (a i) then 1 else 0)
        ≡ count_if p a n + (if p v then 1 else 0)
  unfolding count_if
  count_if-store a i v zero h = absurd (omega arith)
  count_if-store a i v (suc n) h = ground (arith, count_if-store a i v n, count_if-store_ge a i v n)

  -- A count above 0 has a witness.
  pub count_if-pos :
      (a : Array A) (n : ℕ) → 0 < count_if p a n → (i : ℕ) × (i < n) × (p (a i) ≡ true)
  unfolding count_if
  count_if-pos a zero h = absurd (omega arith)
  count_if-pos a (suc n) h = elim (Bool-cases (p (a n))) [
    | inl e ↦ (n, omega arith, e)
    | inr e ↦ let (i, q, r) = count_if-pos a n (ground arith) in (i, omega arith, r)
  ]

  pub pos_of_count_if : (a : Array A) (n i : ℕ) → i < n → p (a i) ≡ true → 0 < count_if p a n
  unfolding count_if
  pos_of_count_if a zero i h e = absurd (omega arith)
  pos_of_count_if a (suc n) i h e = ground (arith, pos_of_count_if a n i)
