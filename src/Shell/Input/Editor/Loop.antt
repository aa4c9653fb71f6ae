-- ===== src/Shell/Input/Editor/Loop.antt =====
-- The loop of `get_command` of src/user-shell.c, one poll at a time.
use os_2024_operatingsalsa.Base.{
  [], ◌∷◌, List, suc, refl, arith, Bytes, ℕ, ◌≡◌, Option, length, ◌≢◌, ◌≤◌, store, ne→==, lt→ltb,
  ℕ_discrete, eq→==, dec_lt, store_self, ◌-◌, ◌+◌, sym, le→ltb,
}
use os_2024_operatingsalsa.Shell.State.{Shell, show}
use os_2024_operatingsalsa.Shell.Input.{get_command, get_command_loop, poll}
use os_2024_operatingsalsa.Shell.Input.Editor.{
  SameFiles, SameFiles-trans, show-SameFiles, poll-HasPolled, IsEditing, HasEdited, failed, read,
  IsLine, edit, typed,
}

IsLine-store :
    (m : Bytes) (i c : ℕ) (line : List ℕ)
    → length line ≤ i
    → IsLine m line
    → IsLine (store m i c) line
IsLine-store m i c [] h v = v
IsLine-store m i c (d ∷ line) h (a, b, v) =
    (ground arith, b, IsLine-store m i c line (omega arith) v)

IsEditing-store :
    (m : Bytes) (i c : ℕ) (line : List ℕ)
    → length line ≤ i
    → c ≢ 8
    → IsEditing m line
    → IsEditing (store m i c) line
IsEditing-store m i c line h n v = record {
  holds = IsLine-store m i c line h v.holds;
  clean = λ x. elim (ℕ_discrete x i) [
    | yes e ↦ ground (arith, v.clean x)
    | no e ↦ ground (arith, v.clean x)
  ];
  inside = v.inside;
}

module _ (codes : List ℕ) (input : List (List ℕ)) (m : Bytes) (s : Shell) where
  c : ℕ
  c = (poll codes s).0

  shown : Shell
  shown = show c 0xF (poll codes s).1

  chars : List ℕ
  chars = typed s.system.keyboard.keyboard_input_on 0 input

  abbrev Next : List ℕ → Type 0
  Next line1 =
      (m1 : Bytes)
      → IsEditing m1 line1
      → HasEdited s (edit line1 chars) (get_command_loop input (length line1) m1 shown)

  abbrev Step : List ℕ → Type 0
  Step line =
      HasEdited s (edit line (c ∷ chars)) (get_command_loop (codes ∷ input) (length line) m s)

  shown-SameFiles : SameFiles s shown
  unfolding shown
  shown-SameFiles =
      SameFiles-trans s (poll codes s).1 _ (poll-HasPolled codes s).same (show-SameFiles _ 0xF _)

  shown-typed :
      typed shown.system.keyboard.keyboard_input_on shown.system.keyboard.keyboard_buffer input
      ≡ chars
  unfolding shown show chars
  shown-typed = rw ((poll-HasPolled codes s).on, (poll-HasPolled codes s).empty) refl

  Step-line_feed : (line : List ℕ) → IsEditing m line → c ≡ 10 → Step line
  unfolding get_command_loop c shown
  Step-line_feed line v e =
      rw (eq→== c 10 e, lt→ltb (length line) 80 v.inside)
        (read (store (store m (length line) c) (length line) 0) shown input
          (IsLine-store (store m (length line) c) (length line) 0 line (omega arith)
            (IsLine-store m (length line) c line (omega arith) v.holds))
          (store_self (store m (length line) c) (length line) 0) v.inside shown-SameFiles)

  Step-nothing : (line : List ℕ) → IsEditing m line → c ≡ 0 → Next line → Step line
  unfolding get_command_loop c shown
  Step-nothing line v e next =
      rw
        (
          eq→== c 0 e,
          ne→== c 10 (omega (arith, e)),
          eq→== (length line) _ refl,
          lt→ltb (length line) 80 v.inside,
          ne→== c 8 (omega (arith, e)),
        )
        (next (store m (length line) c)
          (IsEditing-store m (length line) c line (omega arith) (omega (arith, e)) v))

  -- The backspace itself is overwritten.
  IsEditing-back :
      (line : List ℕ)
      → IsEditing m line
      → IsEditing (store (store m (length line) c) (length line) 0) line
  IsEditing-back line v = record {
    holds =
        IsLine-store (store m (length line) c) (length line) 0 line (omega arith)
          (IsLine-store m (length line) c line (omega arith) v.holds);
    clean = λ x. elim (ℕ_discrete x (length line)) [
      | yes e ↦ ground (arith, v.clean x)
      | no n ↦ ground (arith, v.clean x)
    ];
    inside = v.inside;
  }

  Step-backspace :
      (line : List ℕ)
      → IsEditing m line
      → c ≡ 8
      → ((d : ℕ) (before : List ℕ) → line ≡ d ∷ before → Next before)
      → Step line
  unfolding get_command_loop c shown
  Step-backspace [] v e next =
      rw (eq→== c 8 e, ne→== c 10 (omega (arith, e)), ne→== c 0 (omega (arith, e)), eq→== c 8 e)
        failed
  Step-backspace (d ∷ before) v e next =
      let n = suc (length before) in
      let z : suc (length before) - 1 ≡ length before = omega arith in
      let back = IsEditing-back (d ∷ before) v in
      rw
        (
          eq→== c 8 e,
          ne→== c 10 (omega (arith, e)),
          ne→== c 0 (omega (arith, e)),
          eq→== n _ refl,
          ne→== n 0 (omega arith),
          lt→ltb n 80 v.inside,
          z,
          eq→== c 8 e,
        )
        (next d before refl (store (store m n c) n 0)
          (record { holds = (back.holds).2; clean = back.clean; inside = omega (arith, v.inside) }))

  Step-char :
      (line : List ℕ) → IsEditing m line → c ≢ 10 → c ≢ 0 → c ≢ 8 → Next (c ∷ line) → Step line
  unfolding get_command_loop c shown
  Step-char line v n10 n0 n8 next = elim (dec_lt (length line) 79) [
    | yes l ↦
        let z : suc (length line) ≡ length line + 1 = omega arith in
        rw
          (
            ne→== c 10 n10,
            ne→== c 0 n0,
            ne→== c 8 n8,
            lt→ltb (length line) 80 v.inside,
            lt→ltb (length line) 79 l,
            lt→ltb (length line + 1) 80 (omega arith),
            ne→== (length line + 1) (length line) (omega arith),
            ne→== _ 8 (v.clean (length line + 1)),
            sym z,
          )
          (next (store m (length line) c) (record {
            holds = (
              store_self m (length line) c,
              n0,
              IsLine-store m (length line) c line (omega arith) v.holds,
            );
            clean = (IsEditing-store m (length line) c line (omega arith) n8 v).clean;
            inside = omega arith;
          }))
    | no g ↦
        rw
          (
            ne→== c 10 n10,
            ne→== c 0 n0,
            ne→== c 8 n8,
            lt→ltb (length line) 80 v.inside,
            le→ltb (length line) 79 (omega arith),
            le→ltb (length line + 1) 80 (omega arith),
          )
          failed
  ]

  loop-Step : (line : List ℕ) → IsEditing m line → ((line1 : List ℕ) → Next line1) → Step line
  loop-Step line v next = elim (ℕ_discrete c 10) [
    | yes e ↦ Step-line_feed line v e
    | no n10 ↦ elim (ℕ_discrete c 0) [
      | yes e ↦ Step-nothing line v e (next line)
      | no n0 ↦ elim (ℕ_discrete c 8) [
        | yes e ↦ Step-backspace line v e (λ d before z. next before)
        | no n8 ↦ Step-char line v n10 n0 n8 (next (c ∷ line))
      ]
    ]
  ]

HasEdited-same :
    (s s1 : Shell) (o : Option (List ℕ)) (r : Option (Bytes × Shell × List (List ℕ)))
    → SameFiles s s1
    → HasEdited s1 o r
    → HasEdited s o r
HasEdited-same s s1 _ _ same failed = failed
HasEdited-same s s1 _ _ same (read m s2 rest a b c d) =
    read m s2 rest a b c (SameFiles-trans s s1 s2 same d)

get_command_loop-edit :
    (input : List (List ℕ)) (line : List ℕ) (m : Bytes) (s : Shell)
    → IsEditing m line
    → HasEdited s
        (edit line
          (typed s.system.keyboard.keyboard_input_on s.system.keyboard.keyboard_buffer input))
        (get_command_loop input (length line) m s)
unfolding get_command_loop c chars
get_command_loop-edit [] line m s v = failed
get_command_loop-edit (codes ∷ input) line m s v = rw (sym (poll-HasPolled codes s).char) (
    loop-Step codes input m s line v (λ line1 m1 v1.
      HasEdited-same s (shown codes input m s) _ _ (shown-SameFiles codes input m s) (
        rw (shown-typed codes input m s) at
          (get_command_loop-edit input line1 m1 (shown codes input m s) v1))))

-- For an array with no byte 8, `get_command` agrees with the editor on the characters that the polls
-- find: where the editor gives a line, it returns, its array holds the line with a zero behind, and
-- the files, the folder and the path are as before; where the editor gives none, it has no result.
pub get_command-edit :
    (input : List (List ℕ)) (command : Bytes) (s : Shell)
    → ((x : ℕ) → command x ≢ 8)
    → HasEdited s
        (edit []
          (typed s.system.keyboard.keyboard_input_on s.system.keyboard.keyboard_buffer input))
        (get_command input command s)
unfolding get_command
get_command-edit input command s h =
    get_command_loop-edit input [] command s
      (record { holds = tt; clean = h; inside = omega arith })
