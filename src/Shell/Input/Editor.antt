-- ===== src/Shell/Input/Editor.antt =====
-- `get_command` of src/user-shell.c against an editor of a line.
pub mod Loop
use os_2024_operatingsalsa.Base.{
  [], ◌∷◌, List, suc, refl, arith, some, none, Bytes, ℕ, Bool, ◌≡◌, Option, if◌then◌else◌, length,
  ◌≢◌, ◌==◌, ltb, ◌∙◌, ◌<◌, ◌≤◌, Bool-cases, inl, store, inr, ne→==, lt→ltb, ℕ_discrete, eq→==,
  dec_lt, store_self, ◌-◌, ◌+◌, sym, le→ltb,
}
use os_2024_operatingsalsa.Keyboard.{
  keyboard_scancode_1_to_ascii_map, keyboard_isr, get_keyboard_buffer,
}
use os_2024_operatingsalsa.Syscall.{System, keyboard_interrupt}
use os_2024_operatingsalsa.Shell.State.{Shell, show}
use os_2024_operatingsalsa.Shell.Input.{get_command, get_command_loop, poll, arrive}

-- The character that waits after these key presses, where `waiting` did before.
abbrev pub last_char : Bool → ℕ → List ℕ → ℕ
last_char on waiting [] = waiting
last_char on waiting (code ∷ codes) =
    last_char on (if on then keyboard_scancode_1_to_ascii_map code else waiting) codes

-- The characters that a reader finds which looks after each group of presses.
abbrev pub typed : Bool → ℕ → List (List ℕ) → List ℕ
typed on waiting [] = []
typed on waiting (codes ∷ input) = last_char on waiting codes ∷ typed on 0 input

-- The line, last character first, that these characters leave up to a line feed: a backspace takes one
-- away. `none` is a line that is not ended, has more than 79 characters, or a backspace at its start.
abbrev pub edit : List ℕ → List ℕ → Option (List ℕ)
edit line [] = none
edit line (c ∷ cs) =
    let same = edit line cs in
    let shorter : Option (List ℕ) = elim line [ [] ↦ none | d ∷ before ↦ edit before cs ] in
    let longer = edit (c ∷ line) cs in
    if c == 10
    then some line
    else if c == 0
    then same
    else if c == 8
    then shorter
    else if ltb (length line) 79
    then longer
    else none

-- An array holds a line.
abbrev pub IsLine : Bytes → List ℕ → Type 0
IsLine m [] = Unit
IsLine m (c ∷ line) = (m (length line) ≡ c) × (c ≢ 0) × IsLine m line

-- A state with the same files and folder.
pub record SameFiles (s s1 : Shell) : Type 0 where
  pub files : s1.system.files ≡ s.system.files
  pub folder : s1.current_folder ≡ s.current_folder
  pub cwd : s1.cwd ≡ s.cwd

-- What a poll does.
pub record HasPolled (codes : List ℕ) (s : Shell) : Type 0 where
  pub char :
      (poll codes s).0
      ≡ last_char s.system.keyboard.keyboard_input_on s.system.keyboard.keyboard_buffer codes
  pub on :
      ((poll codes s).1).system.keyboard.keyboard_input_on ≡ s.system.keyboard.keyboard_input_on
  pub empty : ((poll codes s).1).system.keyboard.keyboard_buffer ≡ 0
  pub same : SameFiles s (poll codes s).1

keyboard_interrupt_lem :
    (code : ℕ) (s : System)
    → let s1 = keyboard_interrupt code s in
      (s1.keyboard.keyboard_input_on ≡ s.keyboard.keyboard_input_on)
      × (s1.keyboard.keyboard_buffer ≡ (
          if s.keyboard.keyboard_input_on
          then keyboard_scancode_1_to_ascii_map code
          else s.keyboard.keyboard_buffer))
      × (s1.files ≡ s.files)
unfolding keyboard_interrupt keyboard_isr
keyboard_interrupt_lem code s = elim (Bool-cases s.keyboard.keyboard_input_on) [
  | inl e ↦ rw e (refl, refl, refl)
  | inr e ↦ rw e (refl, refl, refl)
]

arrive_lem :
    (codes : List ℕ) (s : System)
    → let s1 = arrive codes s in
      (s1.keyboard.keyboard_input_on ≡ s.keyboard.keyboard_input_on)
      × (s1.keyboard.keyboard_buffer
          ≡ last_char s.keyboard.keyboard_input_on s.keyboard.keyboard_buffer codes)
      × (s1.files ≡ s.files)
unfolding arrive keyboard_interrupt
arrive_lem [] s = (refl, refl, refl)
arrive_lem (code ∷ codes) s =
    let (on, waiting, files) = keyboard_interrupt_lem code s in
    let (on1, waiting1, files1) = arrive_lem codes (keyboard_interrupt code s) in
    (on1 ∙ on, rw (waiting, on) at waiting1, files1 ∙ files)

pub poll-HasPolled : (codes : List ℕ) (s : Shell) → HasPolled codes s
unfolding poll get_keyboard_buffer
poll-HasPolled codes s =
    let (on, waiting, files) = arrive_lem codes s.system in
    record {
      char = waiting;
      on = on;
      empty = refl;
      same = record { files = files; folder = refl; cwd = refl };
    }

pub SameFiles-trans : (s s1 s2 : Shell) → SameFiles s s1 → SameFiles s1 s2 → SameFiles s s2
SameFiles-trans s s1 s2 a b = record {
  files = b.files ∙ a.files;
  folder = b.folder ∙ a.folder;
  cwd = b.cwd ∙ a.cwd;
}

pub show-SameFiles : (c color : ℕ) (s : Shell) → SameFiles s (show c color s)
unfolding show
show-SameFiles c color s = record { files = refl; folder = refl; cwd = refl }

-- The array while a line is edited.
pub record IsEditing (m : Bytes) (line : List ℕ) : Type 0 where
  pub holds : IsLine m line
  pub clean : (x : ℕ) → m x ≢ 8
  pub inside : length line < 80

-- What the loop gives back, next to what the editor does.
pub data HasEdited (s : Shell)
    : Option (List ℕ) → Option (Bytes × Shell × List (List ℕ)) → Type 0 where
  failed : HasEdited s none none
  read :
      {line : List ℕ} (m : Bytes) (s1 : Shell) (rest : List (List ℕ))
      → IsLine m line
      → m (length line) ≡ 0
      → length line < 80
      → SameFiles s s1
      → HasEdited s (some line) (some (m, s1, rest))
