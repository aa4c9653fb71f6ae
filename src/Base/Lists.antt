-- ===== src/Base/Lists.antt =====
-- Lists over the native numbers, as tables of the source.
use Prim.Native.Char.{code}
use Prim.Native.String.{String}
use Prim.Native.Nat.{ℕ, zero, suc, ◌≤◌}
use mathlib.Core.Path.{◌≡◌, refl}
use mathlib.Core.List.{List, [], ◌∷◌}
use native.Mathlib.Omega.{arith}

abbrev pub length {ℓ} : {A : Type ℓ} → List A → ℕ
length [] = 0
length (x ∷ xs) = suc (length xs)

-- The element of a table, 0 past its end.
unfoldable pub nth : List ℕ → ℕ → ℕ
nth [] i = 0
nth (x ∷ xs) zero = x
nth (x ∷ xs) (suc i) = nth xs i

pub nth-length : (xs : List ℕ) (i : ℕ) → length xs ≤ i → nth xs i ≡ 0
unfolding nth
nth-length [] i h = refl
nth-length (x ∷ xs) zero h = absurd (omega arith)
nth-length (x ∷ xs) (suc i) h = nth-length xs i (omega arith)

-- The bytes of an ASCII text.
abbrev pub text : String → List ℕ
text String.[] = []
text (String.◌∷◌ c s) = code c ∷ text s
