-- ===== src/Shell/Input/Typed.antt =====
-- From key presses to arguments: `get_command` and then `parse_arguments` of src/user-shell.c.
use os_2024_operatingsalsa.Shell.Input.Editor.Loop.{get_command-edit}
use os_2024_operatingsalsa.Base.{
  [], ◌∷◌, List, suc, refl, arith, some, ℕ, Bytes, ◌≡◌, ◌≢◌, ◌<◌, length, ℕ_discrete, ◌+◌, ◌++◌,
  Option, ◌*◌, ne→==, ◌∙◌, lt→ltb, nth, sym, if◌then◌else◌, ◌==◌, ap,
}
use os_2024_operatingsalsa.StringOps.Length.{IsString}
use os_2024_operatingsalsa.Shell.State.{Shell}
use os_2024_operatingsalsa.Shell.Input.{get_command, parse_arguments}
use os_2024_operatingsalsa.Shell.Input.Editor.{IsLine, HasEdited, read, SameFiles, edit, typed}
use os_2024_operatingsalsa.Shell.Input.Words.{bytes_from, words, word_at, parse_arguments-words}

-- A list back to front, in front of another one.
abbrev pub reverse_onto : List ℕ → List ℕ → List ℕ
reverse_onto line [] = line
reverse_onto line (c ∷ cs) = reverse_onto (c ∷ line) cs

-- A character that stands for itself on a line.
pub record IsPlain (c : ℕ) : Type 0 where
  pub no_feed : c ≢ 10
  pub no_zero : c ≢ 0
  pub no_back : c ≢ 8

abbrev pub ArePlain : List ℕ → Type 0
ArePlain [] = Unit
ArePlain (c ∷ cs) = IsPlain c × ArePlain cs

length-reverse_onto : (line cs : List ℕ) → length (reverse_onto line cs) ≡ length line + length cs
length-reverse_onto line [] = omega arith
length-reverse_onto line (c ∷ cs) = length-reverse_onto (c ∷ line) cs ∙ omega arith

edit-plain :
    (line cs rest : List ℕ)
    → ArePlain cs
    → length line + length cs < 80
    → edit line (cs ++ 10 ∷ rest) ≡ some (reverse_onto line cs)
edit-plain line [] rest p h = refl
edit-plain line (c ∷ cs) rest (p, ps) h =
    rw
      (
        ne→== c 10 p.no_feed,
        ne→== c 0 p.no_zero,
        ne→== c 8 p.no_back,
        lt→ltb (length line) 79 (omega arith),
      )
      (edit-plain (c ∷ line) cs rest ps (omega arith))

-- The characters without the zeros, which stand for no key.
abbrev pub without_zeros : List ℕ → List ℕ
without_zeros [] = []
without_zeros (c ∷ cs) = if c == 0 then without_zeros cs else c ∷ without_zeros cs

edit-tail :
    (c : ℕ) (xs ys line : List ℕ)
    → ((before : List ℕ) → edit before xs ≡ edit before ys)
    → edit line (c ∷ xs) ≡ edit line (c ∷ ys)
edit-tail c xs ys [] h = rw (h [], h (c ∷ [])) refl
edit-tail c xs ys (d ∷ before) h = rw (h before, h (d ∷ before), h (c ∷ d ∷ before)) refl

edit-without_zeros : (line cs : List ℕ) → edit line (without_zeros cs) ≡ edit line cs
edit-without_zeros line [] = refl
edit-without_zeros line (c ∷ cs) = elim (ℕ_discrete c 0) [
  | yes e ↦ rw (e) (edit-without_zeros line cs)
  | no n ↦
      let z : without_zeros (c ∷ cs) ≡ c ∷ without_zeros cs = rw (ne→== c 0 n) refl in
      ap (edit line) z ∙ edit-tail c (without_zeros cs) cs line (λ b. edit-without_zeros b cs)
]

-- What stands in front of position `n`, and then `cs`.
bytes_from-IsLine :
    (m : Bytes) (line cs : List ℕ)
    → IsLine m (reverse_onto line cs)
    → (bytes_from m (length line) (length cs) ≡ cs) × IsLine m line
bytes_from-IsLine m line [] v = (refl, v)
bytes_from-IsLine m line (c ∷ cs) v =
    let (e, (a, b, w)) = bytes_from-IsLine m (c ∷ line) cs v in
    let z : length line + 1 ≡ suc (length line) = omega arith in (rw (z, a, e) refl, w)

IsLine-inside : (m : Bytes) (line : List ℕ) → IsLine m line → (j : ℕ) → j < length line → m j ≢ 0
IsLine-inside m [] v j h = absurd (omega arith)
IsLine-inside m (c ∷ line) (a, b, v) j h = elim (ℕ_discrete j (length line)) [
  | yes e ↦ ground (arith, a)
  | no n ↦ IsLine-inside m line v j (omega arith)
]

module _ (args : Bytes) (s : Shell) (line : List ℕ) where
  parse_read :
      (z : (x : ℕ) → args x ≡ 0) (l : length line < 80) {read_line : List ℕ}
      (e : read_line ≡ reverse_onto [] line) {r : Option (Bytes × Shell × List (List ℕ))}
      → HasEdited s (some read_line) r
      → (command1 : Bytes) × (args1 : Bytes) × (s1 : Shell) × (input1 : List (List ℕ)) × (r
          ≡ some (command1, s1, input1))
        × (parse_arguments command1 args ≡ some args1)
        × ((i j : ℕ) → j < 80 → args1 (80 * i + j) ≡ nth (word_at (words line) i) j)
        × SameFiles s s1
  parse_read z l {read_line} e (read m s1 input1 v zero_end short same) =
      let n : length read_line ≡ length line = rw e (omega (arith, length-reverse_onto [] line)) in
      let text : bytes_from m 0 (length line) ≡ line =
        (bytes_from-IsLine m [] line (rw e at v)).0 in
      let zero_plus : length line ≡ 0 + length line = omega arith in
      let str : IsString m 0 (length line) = record {
        inside = λ j p. IsLine-inside m read_line v (0 + j) (omega (arith, n));
        terminator = rw (sym zero_plus) (rw n at zero_end);
      } in
      let (args1, returns, rows) = parse_arguments-words m args (length line) str l z in
      (m, args1, s1, input1, refl, returns, rw text at rows, same)

-- Where a reader finds these characters and then a line feed, with any number of polls that find no
-- key in between, none of the characters a zero, a backspace or a line feed and fewer than 80, `get_command` returns and `parse_arguments` returns on the line that it
-- read: row `i` of the arguments holds word number `i` of the characters, with zeros behind. Then the
-- files, the folder and the path are as before. The array of the command has no byte 8, and the
-- arguments are zero before.
pub parse_arguments-get_command :
    (input : List (List ℕ)) (command args : Bytes) (s : Shell) (line rest : List ℕ)
    → ((x : ℕ) → command x ≢ 8)
    → ((x : ℕ) → args x ≡ 0)
    → without_zeros
        (typed s.system.keyboard.keyboard_input_on s.system.keyboard.keyboard_buffer input)
      ≡ line ++ 10 ∷ rest
    → ArePlain line
    → length line < 80
    → (command1 : Bytes) × (args1 : Bytes) × (s1 : Shell) × (input1 : List (List ℕ)) × (get_command
          input command s
        ≡ some (command1, s1, input1))
      × (parse_arguments command1 args ≡ some args1)
      × ((i j : ℕ) → j < 80 → args1 (80 * i + j) ≡ nth (word_at (words line) i) j)
      × SameFiles s s1
parse_arguments-get_command input command args s line rest h z t p l =
    let found = typed s.system.keyboard.keyboard_input_on s.system.keyboard.keyboard_buffer input in
    let e : edit [] found ≡ some (reverse_onto [] line) =
      sym (edit-without_zeros [] found)
      ∙ ap (edit []) t
      ∙ edit-plain [] line rest p (omega arith) in
    parse_read args s line z l refl (rw e at (get_command-edit input command s h))
