-- ===== src/Shell/Input.antt =====
-- The input of src/user-shell.c: `get_command`, `parse_arguments`, `parseNameAndExt` and their like.
-- `args[i][j]` is the byte 80 * i + j of an array. `none` is an access outside of an array, or input
-- that has not come yet.
pub mod Words
pub mod Editor
pub mod Typed
pub mod Names
use os_2024_operatingsalsa.Base.{
  [], zero, suc, some, none, List, ℕ, Bytes, ◌-◌, store, if◌then◌else◌, ◌+◌, Option, ◌∷◌, ◌==◌, ◌*◌,
  not, ◌&&◌, ltb,
}
use os_2024_operatingsalsa.StringOps.{strlen}
use os_2024_operatingsalsa.Keyboard.{get_keyboard_buffer}
use os_2024_operatingsalsa.Syscall.{System, keyboard_interrupt}
use os_2024_operatingsalsa.Shell.State.{Shell, print, say, show, empty}

abbrev pub arg_count : ℕ
arg_count = 80

abbrev pub arg_size : ℕ
arg_size = 80

-- The interrupts of the keyboard that come before a poll, by their scancodes.
pub arrive : List ℕ → System → System
arrive [] s = s
arrive (code ∷ codes) s = arrive codes (keyboard_interrupt code s)

-- System call 4 after those interrupts: the character that it stores.
unfoldable pub poll : List ℕ → Shell → ℕ × Shell
unfolding arrive
poll codes s =
    let system = arrive codes s.system in
    let (ram, keyboard) = get_keyboard_buffer 0 empty system.keyboard in
    (ram 0, record s { system = record system { keyboard = keyboard } })

-- The loop of `get_command`, with the interrupts before each poll. After an `i++` the source tests
-- `command[i]`, the next byte; a backspace at the start makes `i` -1.
pub get_command_loop : List (List ℕ) → ℕ → Bytes → Shell → Option (Bytes × Shell × List (List ℕ))
get_command_loop [] i command s = none
get_command_loop (codes ∷ input) i command s =
    let (c, polled) = poll codes s in
    let command' = store command i c in
    let shown = show c 0xF polled in
    let next = if not (c == 0) && not (c == 10) && not (c == 8) then i + 1 else i in
    let back = get_command_loop input (next - 1) (store command' next 0) shown in
    let on = get_command_loop input next command' shown in
    if not (ltb i 80)
    then none
    else if c == 10
    then some (store command' i 0, shown, input)
    else if not (ltb next 80)
    then none
    else if command' next == 8
    then (if next == 0 then none else back)
    else on

unfoldable pub get_command : List (List ℕ) → Bytes → Shell → Option (Bytes × Shell × List (List ℕ))
unfolding get_command_loop
get_command input command s = get_command_loop input 0 command s

-- The inner loop of `clear_cmd_args`, and the outer one.
pub clear_arg_loop : ℕ → ℕ → ℕ → Bytes → Bytes
clear_arg_loop zero i j args = args
clear_arg_loop (suc left) i j args = clear_arg_loop left i (j + 1) (store args (arg_size * i + j) 0)

pub clear_cmd_loop : ℕ → ℕ → Bytes × Bytes → Bytes × Bytes
clear_cmd_loop zero i (command, args) = (command, args)
clear_cmd_loop (suc left) i (command, args) =
    clear_cmd_loop left (i + 1) (store command i 0, clear_arg_loop 80 i 0 args)

unfoldable pub clear_cmd_args : Bytes → Bytes → Bytes × Bytes
unfolding clear_cmd_loop clear_arg_loop
clear_cmd_args command args = clear_cmd_loop 80 0 (command, args)

-- The loop of `parse_arguments` with the bytes of the command that are left.
pub parse_loop : ℕ → ℕ → ℕ → ℕ → Bytes → Bytes → Option Bytes
parse_loop zero k i j command args = some args
parse_loop (suc left) k i j command args =
    let skip = parse_loop left (k + 1) (if not (j == 0) then i + 1 else i) 0 command args in
    let take =
      parse_loop left (k + 1) i (j + 1) command (store args (arg_size * i + j) (command k)) in
    if command k == b' '
    then skip
    else if not (ltb i arg_count && ltb j arg_size)
    then none
    else take

unfoldable pub parse_arguments : Bytes → Bytes → Option Bytes
unfolding parse_loop
parse_arguments command args = parse_loop (strlen command 0) 0 0 0 command args

-- `addPadding(str, idx1, idx2)` with the rounds that are left.
pub padding_loop : ℕ → ℕ → Bytes → Bytes
padding_loop zero i str = str
padding_loop (suc left) i str = padding_loop left (i + 1) (store str i 0)

unfoldable pub add_padding : Bytes → ℕ → ℕ → Bytes
unfolding padding_loop
add_padding str idx1 idx2 = padding_loop (idx2 - idx1) idx1 str

-- The loop over the name, with what is left of its eight bytes.
pub name_loop : ℕ → ℕ → Bytes → ℕ → Bytes → ℕ × Bytes
name_loop zero i filename at name = (i, name)
name_loop (suc left) i filename at name =
    let c = filename (at + i) in
    let rest = name_loop left (i + 1) filename at (store name i c) in
    if not (c == b'.') && not (c == 0) then rest else (i, name)

-- `ext[j-i-1] = filename[j]` for the three bytes behind the dot.
unfoldable pub copy_ext : ℕ → Bytes → ℕ → Bytes → Bytes
copy_ext i filename at ext =
    store (store (store ext 0 (filename (at + i + 1))) 1 (filename (at + i + 2))) 2
      (filename (at + i + 3))

-- What `parseNameAndExt` returns, with the two areas that it writes.
pub record ParsedName : Type 0 where
  pub code : ℕ
  pub name : Bytes
  pub ext : Bytes

unfoldable pub parse_name_and_ext : Bytes → ℕ → Bytes → Bytes → ParsedName
unfolding name_loop add_padding copy_ext
parse_name_and_ext filename at name ext =
    let (i, copied) = name_loop 8 0 filename at name in
    let padded = add_padding copied i 8 in
    let copied_ext = add_padding (copy_ext i filename at ext) 3 3 in
    if filename (at + i) == 0
    then record { code = 0; name = padded; ext = add_padding ext 0 3 }
    else if not (filename (at + i) == b'.')
    then record { code = 1; name = padded; ext = ext }
    else if not (filename (at + i + 4) == 0)
    then record { code = 1; name = padded; ext = copied_ext }
    else record { code = 0; name = padded; ext = copied_ext }

-- `while (args[i][0] != '\0') i++`, with the rows that are left.
pub last_loop : ℕ → ℕ → Bytes → Option ℕ
last_loop zero i args = none
last_loop (suc left) i args =
    let rest = last_loop left (i + 1) args in if args (arg_size * i) == 0 then some i else rest

-- `lastIndex`, plus one.
unfoldable pub count_args : Bytes → Option ℕ
unfolding last_loop
count_args args = last_loop arg_count 0 args

unfoldable pub print_terminal_cwd : Shell → Shell
unfolding say print
print_terminal_cwd s = print s.cwd 0 (strlen s.cwd 0) 1 (say "operatingsalsa:" 2 s)
