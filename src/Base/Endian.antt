-- ===== src/Base/Endian.antt =====
-- Little-endian fields of a byte array, as the packed structures of the source lay them out.
use Prim.Native.Nat.{ℕ, zero, suc, ◌+◌, ◌*◌, ◌/◌, ◌%◌, ◌^◌, ◌<◌}
use mathlib.Core.Path.{◌≡◌}
use mathlib.Core.List.{List, [], ◌∷◌}
use native.Mathlib.Omega.{arith}
use os_2024_operatingsalsa.Base.Tests.{◌==◌, if◌then◌else◌}
use os_2024_operatingsalsa.Base.Arrays.{Bytes, Array, store}

-- Byte `k` of a 32-bit value.
unfoldable pub byte_of : ℕ → ℕ → ℕ
byte_of v k =
    if k == 0
    then v % 256
    else if k == 1
    then v / 256 % 256
    else if k == 2
    then v / 65536 % 256
    else v / 16777216 % 256

unfoldable pub load16 : Bytes → ℕ → ℕ
load16 b x = b x + 256 * b (x + 1)

unfoldable pub load32 : Bytes → ℕ → ℕ
load32 b x = b x + 256 * b (x + 1) + 65536 * b (x + 2) + 16777216 * b (x + 3)

unfoldable pub store16 : Bytes → ℕ → ℕ → Bytes
store16 b x v = store (store b x (v % 256)) (x + 1) (v / 256 % 256)

unfoldable pub store32 : Bytes → ℕ → ℕ → Bytes
unfolding byte_of
store32 b x v =
    store (store (store (store b x (byte_of v 0)) (x + 1) (byte_of v 1)) (x + 2) (byte_of v 2))
      (x + 3) (byte_of v 3)

pub load16-store16 : (b : Bytes) (x v : ℕ) → load16 (store16 b x v) x ≡ v % 2 ^ 16
unfolding load16 store16
load16-store16 b x v = ground arith

pub load32-store32 : (b : Bytes) (x v : ℕ) → load32 (store32 b x v) x ≡ v % 2 ^ 32
unfolding load32 store32
load32-store32 b x v = ground arith

-- An array of 32-bit words as bytes, and back.
unfoldable pub words_bytes : Array ℕ → Bytes
unfolding byte_of
words_bytes w x = byte_of (w (x / 4)) (x % 4)

unfoldable pub bytes_words : Bytes → Array ℕ
unfolding load32
bytes_words b i = load32 b (4 * i)

pub words_bytes_at : (w : Array ℕ) (i k : ℕ) → k < 4 → words_bytes w (4 * i + k) ≡ byte_of (w i) k
unfolding words_bytes
words_bytes_at w i k h =
    let e : (4 * i + k) / 4 ≡ i = omega arith in
    let f : (4 * i + k) % 4 ≡ k = omega arith in rw (e, f)

pub bytes_words-words_bytes : (w : Array ℕ) (i : ℕ) → bytes_words (words_bytes w) i ≡ w i % 2 ^ 32
unfolding bytes_words byte_of
bytes_words-words_bytes w i =
    ground (
      arith,
      words_bytes_at w i 0,
      words_bytes_at w i 1,
      words_bytes_at w i 2,
      words_bytes_at w i 3,
    )

-- The bytes of a text, with zeros behind.
unfoldable pub chars : List ℕ → Bytes
chars [] x = 0
chars (c ∷ cs) zero = c
chars (c ∷ cs) (suc x) = chars cs x
