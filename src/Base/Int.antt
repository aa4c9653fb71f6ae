-- ===== src/Base/Int.antt =====
-- The signed results of C functions. `negsuc n` is -(n + 1).
use Prim.Native.Nat.{ℕ, ◌-◌, ◌%◌}
use mathlib.Core.Path.{◌≡◌}
use mathlib.Core.Bool.{Bool, true, false}
use native.Mathlib.Omega.{arith}
use os_2024_operatingsalsa.Base.Tests.{◌==◌, leb}

pub data ℤ : Type 0 where
  pos : ℕ → ℤ
  negsuc : ℕ → ℤ

abbrev pub minus_one : ℤ
minus_one = negsuc 0

abbrev pub pos_part : ℤ → ℕ
pos_part (pos n) = n
pos_part (negsuc n) = 0

abbrev pub negate : ℤ → ℤ
negate (pos ℕ.zero) = pos 0
negate (pos (ℕ.suc n)) = negsuc n
negate (negsuc n) = pos (ℕ.suc n)

-- `e == 0` and `e > 0`.
abbrev pub is_zero : ℤ → Bool
is_zero (pos n) = n == 0
is_zero (negsuc n) = false

abbrev pub is_pos : ℤ → Bool
is_pos (pos ℕ.zero) = false
is_pos (pos (ℕ.suc n)) = true
is_pos (negsuc n) = false

pub is_zero→eq : (z : ℤ) → is_zero z ≡ true → z ≡ pos 0
is_zero→eq z h = ground arith

-- `i++`, `i--`, `i == n`, `i >= n` and the cast to `uint8_t`.
abbrev pub int_suc : ℤ → ℤ
int_suc (pos n) = pos (ℕ.suc n)
int_suc (negsuc ℕ.zero) = pos 0
int_suc (negsuc (ℕ.suc n)) = negsuc n

abbrev pub int_pred : ℤ → ℤ
int_pred (pos ℕ.zero) = negsuc 0
int_pred (pos (ℕ.suc n)) = pos n
int_pred (negsuc n) = negsuc (ℕ.suc n)

abbrev pub is_minus_one : ℤ → Bool
is_minus_one (pos n) = false
is_minus_one (negsuc n) = n == 0

abbrev pub int_eq : ℤ → ℕ → Bool
int_eq (pos n) m = n == m
int_eq (negsuc n) m = false

abbrev pub int_ge : ℤ → ℕ → Bool
int_ge (pos n) m = leb m n
int_ge (negsuc n) m = false

abbrev pub u8_of_int : ℤ → ℕ
u8_of_int (pos n) = n % 256
u8_of_int (negsuc n) = 255 - n % 256
