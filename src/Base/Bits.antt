-- ===== src/Base/Bits.antt =====
-- The bitwise operations of C at masks and at disjoint fields. Both are read off the recursion that
-- the native operations stand for, by induction on its fuel, which bounds the left operand.
use Prim.Native.Nat.{
  ℕ, zero, suc, ◌+◌, ◌-◌, ◌*◌, ◌/◌, ◌%◌, ◌^◌, ◌≤◌, ◌<◌, min, max, bit_and, bit_or, digits,
  bit_and-bitwise, bit_or-bitwise,
}
use mathlib.Core.Path.{ap, refl, ◌≡◌, ◌∙◌}
use native.Mathlib.Nat.{pow-suc, div-div-eq-div-mul}
use native.Mathlib.Omega.{arith}

pub pow_pos : (k : ℕ) → 0 < 2 ^ k
pow_pos zero = omega arith
pow_pos (suc k) = omega (arith, pow_pos k, pow-suc 2 k)

-- A mask of `k + 1` ones: its lowest digit, and the mask of the other digits.
mask_suc : (k : ℕ) → ((2 ^ suc k - 1) / 2 ≡ 2 ^ k - 1) × ((2 ^ suc k - 1) % 2 ≡ 1)
mask_suc k = omega (arith, pow_pos k, pow-suc 2 k)

mod_suc : (k a : ℕ) → a % 2 ^ suc k ≡ a / 2 % 2 ^ k * 2 + a % 2
mod_suc k a = halve (2 ^ k) (pow_pos k) (pow-suc 2 k)
  where
    halve : (m : ℕ) → 0 < m → 2 ^ suc k ≡ m * 2 → a % 2 ^ suc k ≡ a / 2 % m * 2 + a % 2
    halve m h e = rw e (grind arith)

mask_digits : (n k a : ℕ) → a ≤ n → digits (λ _. zero) min n a (2 ^ k - 1) ≡ a % 2 ^ k
mask_digits zero k zero h = omega (arith, pow_pos k)
mask_digits zero k (suc a) h = absurd (omega arith)
mask_digits (suc n) k zero h = omega (arith, pow_pos k)
mask_digits (suc n) zero (suc a) h = omega (arith, mask_digits n 0 (suc a / 2) (omega arith))
mask_digits (suc n) (suc k) (suc a) h =
    let (half, low) = mask_suc k in
    let rest = mask_digits n k (suc a / 2) (omega arith) in
    rw half (omega (arith, low, rest, mod_suc k (suc a)))

-- `a & ((1 << k) - 1)` keeps the low `k` bits.
pub bit_and-mask : (k a : ℕ) → bit_and a (2 ^ k - 1) ≡ a % 2 ^ k
bit_and-mask k a = bit_and-bitwise a (2 ^ k - 1) ∙ mask_digits a k a (omega arith)

shift_suc : (k b : ℕ) → (b * 2 ^ suc k / 2 ≡ b * 2 ^ k) × (b * 2 ^ suc k % 2 ≡ 0)
shift_suc k b =
    let e : b * 2 ^ suc k ≡ b * 2 ^ k * 2 = rw (pow-suc 2 k) (omega arith) in omega arith

shift_digits :
    (n k a b : ℕ) → a ≤ n → a < 2 ^ k → digits (λ c. c) max n a (b * 2 ^ k) ≡ a + b * 2 ^ k
shift_digits zero k zero b h l = omega arith
shift_digits zero k (suc a) b h l = absurd (omega arith)
shift_digits (suc n) k zero b h l = omega arith
shift_digits (suc n) zero (suc a) b h l = absurd (omega arith)
shift_digits (suc n) (suc k) (suc a) b h l =
    let (half, low) = shift_suc k b in
    let rest = shift_digits n k (suc a / 2) b (omega arith) (omega (arith, pow-suc 2 k)) in
    rw half (omega (arith, half, low, rest))

-- `lo | (hi << k)` is a sum where `lo` has `k` bits.
pub bit_or-shift : (k a b : ℕ) → a < 2 ^ k → bit_or a (b * 2 ^ k) ≡ a + b * 2 ^ k
bit_or-shift k a b l = bit_or-bitwise a (b * 2 ^ k) ∙ shift_digits a k a b (omega arith) l

pub bit_or-zero : (b : ℕ) → bit_or 0 b ≡ b
bit_or-zero b = bit_or-bitwise 0 b

one_step : (q y : ℕ) → y % q ≡ y / 2 ^ 0 % q * 2 ^ 0
one_step q y = let e : y / 2 ^ 0 ≡ y = omega arith in rw e (omega arith)

zero_field : (p q : ℕ) → 0 < p → 0 < q → 0 ≡ 0 / p % q * p
zero_field p q h l = grind arith

two_steps : (p q x y : ℕ) → y / 2 / p % q * p * 2 + min x 0 ≡ y / (p * 2) % q * (p * 2)
two_steps p q x y =
    let swap : 2 * p ≡ p * 2 = omega arith in
    let e : y / 2 / p ≡ y / (p * 2) = div-div-eq-div-mul y 2 p ∙ rw swap refl in
    let z : min x 0 ≡ 0 = omega arith in rw (e, z) (grind arith)

field_digits :
    (n k m a : ℕ)
    → a ≤ n
    → digits (λ _. zero) min n a ((2 ^ m - 1) * 2 ^ k) ≡ a / 2 ^ k % 2 ^ m * 2 ^ k
field_digits zero k m zero h = zero_field (2 ^ k) (2 ^ m) (pow_pos k) (pow_pos m)
field_digits zero k m (suc a) h = absurd (omega arith)
field_digits (suc n) k m zero h = zero_field (2 ^ k) (2 ^ m) (pow_pos k) (pow_pos m)
field_digits (suc n) zero m (suc a) h =
    let e : (2 ^ m - 1) * 2 ^ 0 ≡ 2 ^ m - 1 = omega arith in
    ap (digits (λ _. zero) min (suc n) (suc a)) e
    ∙ mask_digits (suc n) m (suc a) h
    ∙ one_step (2 ^ m) (suc a)
field_digits (suc n) (suc k) m (suc a) h =
    let (half, low) = shift_suc k (2 ^ m - 1) in
    let rest = field_digits n k m (suc a / 2) (omega arith) in
    rw (half, rest, low, pow-suc 2 k) (two_steps (2 ^ k) (2 ^ m) (suc a % 2) (suc a))

-- `a & (((1 << m) - 1) << k)` keeps the `m` bits from `k` on.
pub bit_and-field : (k m a : ℕ) → bit_and a ((2 ^ m - 1) * 2 ^ k) ≡ a / 2 ^ k % 2 ^ m * 2 ^ k
bit_and-field k m a = bit_and-bitwise a ((2 ^ m - 1) * 2 ^ k) ∙ field_digits a k m a (omega arith)
