-- ===== src/Tests/Shell.antt =====
-- Applications of the theorems about src/user-shell.c, and runs of its functions.
use os_2024_operatingsalsa.Shell.Input.Editor.Loop.{get_command-edit}
use os_2024_operatingsalsa.Base.{
  refl, zero, suc, [], ◌∷◌, List, some, arith, true, ℕ, if◌then◌else◌, ◌==◌, nth, text, Bytes, ◌≡◌,
  ◌<◌, ◌*◌, ◌+◌, chars, ◌≢◌, length, ◌≤◌,
}
use os_2024_operatingsalsa.Shell.State.{Shell, literal}
use os_2024_operatingsalsa.Shell.Input.{get_command, parse_arguments, parse_name_and_ext}
use os_2024_operatingsalsa.Shell.Input.Editor.{HasEdited, SameFiles}
use os_2024_operatingsalsa.Shell.Input.Typed.{parse_arguments-get_command, ArePlain, IsPlain}
use os_2024_operatingsalsa.Shell.Input.Words.{parse_arguments-words, word_at}
use os_2024_operatingsalsa.Shell.Input.Names.{parse_name_and_ext-printed, HasNames, IsBase}
use os_2024_operatingsalsa.Tests.Fat32.{zeros, small_fs}
use os_2024_operatingsalsa.Tests.Devices.{last_column, keyboard}
use os_2024_operatingsalsa.Keyboard.{keyboard_scancode_1_to_ascii_map}

-- A shell in the root folder, with the input on.
abbrev pub shell : Shell
shell = record {
  system = record {
    files = small_fs;
    terminal = last_column;
    keyboard = record keyboard { keyboard_input_on = true; keyboard_buffer = 0 };
  };
  current_folder = λ x. if x == 26 then 2 else 0;
  cwd = literal "/root/";
}

-- The keys l, s, the space bar, a, and the line feed; between l and s nothing is pressed at one poll.
abbrev keys : List (List ℕ)
keys = (0x26 ∷ []) ∷ [] ∷ (0x1F ∷ []) ∷ (0x39 ∷ []) ∷ (0x1E ∷ []) ∷ (0x1C ∷ []) ∷ []

get_command-edit_example :
    HasEdited shell (some (b'a' ∷ b' ' ∷ b's' ∷ b'l' ∷ [])) (get_command keys zeros shell)
unfolding keyboard_scancode_1_to_ascii_map nth
get_command-edit_example = get_command-edit keys zeros shell (λ x. omega arith)

pub chars-nth : (cs : List ℕ) (j : ℕ) → chars cs j ≡ nth cs j
unfolding chars nth
chars-nth [] j = refl
chars-nth (c ∷ cs) zero = refl
chars-nth (c ∷ cs) (suc j) = chars-nth cs j

pub letter : (c : ℕ) → 11 ≤ c → IsPlain c
letter c h = record {
  no_feed = λ e. omega arith;
  no_zero = λ e. omega arith;
  no_back = λ e. omega arith;
}

plain_line : ArePlain (text "ls a")
plain_line = (
  letter _ (omega arith),
  (letter _ (omega arith), (letter _ (omega arith), (letter _ (omega arith), tt))),
)

parse_arguments-get_command_example :
    (command1 : Bytes) × (args1 : Bytes) × (s1 : Shell) × (input1 : List (List ℕ)) × (get_command
        keys zeros shell
      ≡ some (command1, s1, input1))
    × (parse_arguments command1 zeros ≡ some args1)
    × ((i j : ℕ) → j < 80 → args1 (80 * i + j) ≡ nth (word_at (text "ls" ∷ text "a" ∷ []) i) j)
    × SameFiles shell s1
unfolding keyboard_scancode_1_to_ascii_map nth
parse_arguments-get_command_example =
    parse_arguments-get_command keys zeros zeros shell (text "ls a") [] (λ x. omega arith)
      (λ x. refl) refl plain_line (omega arith)

abbrev words_line : Bytes
words_line = literal "cp  a b"

plain_words : ArePlain (text "cp  a b")
plain_words = (
  letter _ (omega arith),
  (
    letter _ (omega arith),
    (
      letter _ (omega arith),
      (
        letter _ (omega arith),
        (letter _ (omega arith), (letter _ (omega arith), (letter _ (omega arith), tt))),
      ),
    ),
  ),
)

pub chars-inside : (cs : List ℕ) → ArePlain cs → (j : ℕ) → j < length cs → chars cs j ≢ 0
unfolding chars
chars-inside [] p j h = absurd (omega arith)
chars-inside (c ∷ cs) (p, ps) zero h = p.no_zero
chars-inside (c ∷ cs) (p, ps) (suc j) h = chars-inside cs ps j (omega arith)

parse_arguments-words_example :
    (args1 : Bytes) × (parse_arguments words_line zeros ≡ some args1)
    × ((i j : ℕ)
        → j < 80
        → args1 (80 * i + j) ≡ nth (word_at (text "cp" ∷ text "a" ∷ text "b" ∷ []) i) j)
unfolding chars
parse_arguments-words_example =
    parse_arguments-words words_line zeros 7
      (record {
        inside = λ j h. chars-inside (text "cp  a b") plain_words (0 + j) (omega arith);
        terminator = refl;
      })
      (omega arith) (λ x. refl)

a-IsBase : IsBase (text "a")
unfolding nth
a-IsBase = record {
  short = omega arith;
  no_dot = λ k h. let z : k ≡ 0 = omega arith in rw z (λ e. omega (arith, e));
  no_zero = λ k h. let z : k ≡ 0 = omega arith in rw z (λ e. omega (arith, e));
}

parse_name_and_ext-printed_example :
    HasNames (text "a") (text "txt") (parse_name_and_ext (literal "a.txt") 0 zeros zeros)
parse_name_and_ext-printed_example =
    parse_name_and_ext-printed (literal "a.txt") 0 zeros zeros (text "a") a-IsBase (text "txt")
      (omega arith) (λ j h. let z : 0 + j ≡ j = omega arith in rw z (chars-nth (text "a.txt") j))
