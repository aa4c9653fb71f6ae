-- ===== src/Shell/Commands.antt =====
-- `mv`, `execute_command` and `main` of src/user-shell.c.
use os_2024_operatingsalsa.Base.{
  zero, suc, some, none, ◌>>=◌, List, ℕ, Bytes, ◌*◌, Option, if◌then◌else◌, Bool, ◌+◌, ltb, ◌==◌,
  ◌-◌,
}
use os_2024_operatingsalsa.StringOps.{memset, strlen, memcpy}
use os_2024_operatingsalsa.Fat32.Layout.{Request, root_cluster_number}
use os_2024_operatingsalsa.Fat32.Ops.{read, read_directory}
use os_2024_operatingsalsa.Syscall.{System}
use os_2024_operatingsalsa.Keyboard.{keyboard_state_activate}
use os_2024_operatingsalsa.Shell.State.{
  Shell, file_syscall, say, strings_equal, new_request, long_request, current_cluster, literal,
  empty,
}
use os_2024_operatingsalsa.Shell.Input.{
  arg_size, parse_name_and_ext, count_args, get_command, parse_arguments, clear_cmd_args,
  print_terminal_cwd,
}
use os_2024_operatingsalsa.Shell.Folders.{cd, ls, mkdir, update_cwd_contents, directory_message}
use os_2024_operatingsalsa.Shell.Files.{cat, cp}
use os_2024_operatingsalsa.Shell.Remove.{rm}
use os_2024_operatingsalsa.Shell.Search.{find}
use os_2024_operatingsalsa.Shell.Move.{mv_folder}

-- `memcpy(command[row], word, n)` into an array that is not initialised.
abbrev copy_row : Bytes → ℕ → Bytes → ℕ → ℕ → Bytes
copy_row command row words at n = memcpy command (arg_size * row) words at n

-- One source of `mv` that was found. `execute` is the shell's `execute_command`.
pub mv_one : (Bytes → Shell → Option Shell) → Bytes → Bytes → ℕ → ℕ → Bool → Shell → Option Shell
mv_one execute garbage args src dest is_folder s = do
  let n = strlen args src
  let command = copy_row garbage 0 (literal "rm") 0 2
  let cp_command =
      copy_row (copy_row (copy_row garbage 0 (literal "cp") 0 2) 1 args src n) 2 args dest
        (strlen args dest)
  if is_folder then mv_folder garbage args src dest s else do
    copied ← execute cp_command (say "\n" 0x4 s)
    execute (copy_row command 1 args src n) copied

-- `request` with the name and the extension of the argument in row `i`.
abbrev pub source_request : Bytes → Request → Bytes → ℕ → Request
source_request garbage request args i =
    let file = parse_name_and_ext args (arg_size * i) garbage garbage in
    record request { name = file.name; ext = file.ext }

-- The loop that looks for all sources, with those that are left, and what follows it.
pub mv_check_loop :
    (Bytes → Shell → Option Shell) → ℕ → ℕ → Bytes → Request → Bytes → Bytes → Shell → Option Shell
mv_check_loop move zero i garbage request args table s = move table s
mv_check_loop move (suc left) i garbage request args table s = do
  reply ← file_syscall (read_directory garbage) (source_request garbage request args i) table s
  let rest = mv_check_loop move left (i + 1) garbage request args reply.buffer reply.shell
  if reply.retcode == 2 then some (say "File/Folder not found\n" 0x4 reply.shell) else rest

-- The loop that moves them.
pub mv_loop :
    (Bytes → Shell → Option Shell)
    → ℕ
    → ℕ
    → Bytes
    → Request
    → Bytes
    → ℕ
    → Bytes
    → Shell
    → Option Shell
mv_loop execute zero i garbage request args dest table s = some s
mv_loop execute (suc left) i garbage request args dest table s = do
  reply ← file_syscall (read_directory garbage) (source_request garbage request args i) table s
  moved ←
      (if reply.retcode == 2
        then some (say "File/Folder not found\n" 0x4 reply.shell)
        else mv_one execute garbage args (arg_size * i) dest (reply.retcode == 0) reply.shell)
  mv_loop execute left (i + 1) garbage request args dest reply.buffer moved

-- From the destination on, which is the argument in row `last`: its name is copied with its own length.
pub mv_to : (Bytes → Shell → Option Shell) → Bytes → Bytes → ℕ → Shell → Option Shell
mv_to execute garbage args last s = do
  let dest = arg_size * last
  let request =
      long_request (new_request empty 0 (current_cluster s) 32) args dest (strlen args dest)
  reply ← file_syscall (read_directory garbage) request empty s
  if reply.retcode == 0
      then mv_check_loop (mv_loop execute (last - 1) 1 garbage request args dest) (last - 1) 1
          garbage request args reply.buffer reply.shell
      else do message ← directory_message reply.retcode; some (say message 0x4 reply.shell)

unfoldable pub mv : (Bytes → Shell → Option Shell) → Bytes → Bytes → Shell → Option Shell
unfolding mv_to mv_check_loop mv_loop mv_one
mv execute garbage args s = do
  count ← count_args args
  if ltb count 3
      then some (say "Not enough arguments\n" 0x4 s)
      else mv_to execute garbage args (count - 1) s

-- The fuel bounds the depth of the calls: `mv` calls `execute_command`, and other commands have
-- recursions of their own.
unfoldable pub execute_command : ℕ → Bytes → Bytes → Shell → Option Shell
execute_command zero garbage args s = none
execute_command (suc fuel) garbage args s =
    let moved = mv (execute_command fuel garbage) garbage args s in
    if strings_equal args 0 (literal "cd") 0
    then cd garbage args arg_size s
    else if strings_equal args 0 (literal "cat") 0
    then cat garbage args arg_size s
    else if strings_equal args 0 (literal "ls") 0
    then ls garbage s
    else if strings_equal args 0 (literal "mkdir") 0
    then mkdir garbage args s
    else if strings_equal args 0 (literal "cp") 0
    then cp garbage args arg_size (arg_size * 2) s
    else if strings_equal args 0 (literal "rm") 0
    then rm fuel garbage args s
    else if strings_equal args 0 (literal "mv") 0
    then moved
    else if strings_equal args 0 (literal "find") 0
    then find fuel garbage args arg_size s
    else some (say "Command not found\n" 0x4 s)

-- `main` before its loop, with the globals of a program that is loaded: the codes of the calls are
-- ignored.
unfoldable pub start : Bytes → System → Option Shell
start garbage system = do
  loaded ←
      file_syscall (read garbage) (new_request (literal "shell") 0 root_cluster_number 2048) empty
        (record { system = system; current_folder = empty; cwd = literal "/root/" })
  root ←
      file_syscall (read_directory garbage) (new_request (literal "root") 0 2 2048) empty
        loaded.shell
  some (record root.shell {
    current_folder = root.buffer;
    system = record root.shell.system {
      keyboard = keyboard_state_activate root.shell.system.keyboard;
    };
  })

-- One round of the loop of `main`: the two arrays, the state, and the input that is left.
unfoldable pub round :
    ℕ
    → Bytes
    → List (List ℕ)
    → Bytes
    → Bytes
    → Shell
    → Option (Bytes × Bytes × Shell × List (List ℕ))
round fuel garbage input command args s = do
  updated ← update_cwd_contents garbage s
  (typed, read_shell, rest) ← get_command input command (print_terminal_cwd updated)
  parsed ← parse_arguments typed args
  executed ← execute_command fuel garbage parsed read_shell
  let (command', args') = clear_cmd_args typed parsed
  some (command', args', executed, rest)

-- The loop `memset(args[i], 0, 80)`.
pub args_loop : ℕ → ℕ → Bytes → Bytes
args_loop zero i args = args
args_loop (suc left) i args = args_loop left (i + 1) (memset args (arg_size * i) 0 80)

-- That many rounds of the loop that does not end.
pub rounds :
    ℕ
    → ℕ
    → Bytes
    → List (List ℕ)
    → Bytes
    → Bytes
    → Shell
    → Option (Bytes × Bytes × Shell × List (List ℕ))
rounds zero fuel garbage input command args s = some (command, args, s, input)
rounds (suc left) fuel garbage input command args s = do
  (command', args', done, rest) ← round fuel garbage input command args s
  rounds left fuel garbage rest command' args' done

unfoldable pub main :
    ℕ → ℕ → Bytes → List (List ℕ) → System → Option (Bytes × Bytes × Shell × List (List ℕ))
unfolding start args_loop rounds round
main count fuel garbage input system = do
  started ← start garbage system
  rounds count fuel garbage input garbage (args_loop 80 0 garbage) started
