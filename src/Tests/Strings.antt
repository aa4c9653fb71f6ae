-- ===== src/Tests/Strings.antt =====
-- Applications of the theorems about src/stdlib/string.c, and runs of its functions.
use os_2024_operatingsalsa.Base.{
  ℕ, ◌<◌, ◌⊎◌, ◌+◌, ◌-◌, ◌≡◌, refl, inl, inr, Bytes, if◌then◌else◌, minus_one, arith, ◌==◌,
}
use os_2024_operatingsalsa.StringOps.{memmove, memcmp, strlen, concat}
use os_2024_operatingsalsa.StringOps.Memory.{in_range}
use os_2024_operatingsalsa.StringOps.Move.{memmove_lem}
use os_2024_operatingsalsa.StringOps.Compare.{Compared, memcmp-Compared}
use os_2024_operatingsalsa.StringOps.Length.{IsString, concat-IsString}

-- "ab" at 0 and "cde" at 20.
abbrev words : Bytes
words x =
    if x == 0
    then b'a'
    else if x == 1
    then b'b'
    else if x == 20
    then b'c'
    else if x == 21
    then b'd'
    else if x == 22
    then b'e'
    else 0

first_word : IsString words 0 2
first_word = record { inside = λ j h. ground arith; terminator = refl }

second_word : IsString words 20 3
second_word = record { inside = λ j h. ground arith; terminator = refl }

-- The areas 0 .. 5 and 2 .. 7 overlap.
memmove_lem_example :
    memmove words 2 0 5 3 ≡ (if in_range 2 5 3 then words (0 + (3 - 2)) else words 3)
memmove_lem_example = memmove_lem words 2 0 5 3

memcmp-Compared_example : Compared words 0 words 20 0 2 (memcmp words 0 words 20 2)
memcmp-Compared_example = memcmp-Compared words 0 words 20 2

concat-IsString_example :
    IsString (concat words 0 20 0) 0 6
    × ((j : ℕ) → j < 2 → concat words 0 20 0 (0 + j) ≡ words (0 + j))
    × (concat words 0 20 0 2 ≡ b'/')
    × ((j : ℕ) → j < 3 → concat words 0 20 0 (3 + j) ≡ words (20 + j))
    × ((x : ℕ) → (x < 0) ⊎ (6 < x) → concat words 0 20 0 x ≡ words x)
concat-IsString_example =
    concat-IsString words 0 20 0 2 3 first_word second_word (inl (omega arith)) (inr (omega arith))
      (omega arith)

strlen-words : strlen words 20 ≡ 3
unfolding strlen
strlen-words = refl

concat-words : concat words 0 20 0 4 ≡ b'd'
unfolding concat strlen
concat-words = refl

memcmp-words : memcmp words 0 words 20 2 ≡ minus_one
unfolding memcmp
memcmp-words = refl
