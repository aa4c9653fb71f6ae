-- ===== src/Shell/Remove.antt =====
-- `rmHelper` and `rm` of src/user-shell.c. `none` is also a recursion that does not end.
pub mod Endless
use os_2024_operatingsalsa.Base.{
  zero, suc, some, none, ◌>>=◌, ℕ, Bytes, Bool, Option, if◌then◌else◌, ◌+◌, ◌*◌, ◌==◌, ◌-◌, ◌&&◌,
  not,
}
use os_2024_operatingsalsa.StringOps.{strlen}
use os_2024_operatingsalsa.Fat32.Layout.{
  entry_at, ext_at, entry_cluster, user_attribute, uattr_not_empty,
}
use os_2024_operatingsalsa.Fat32.Ops.{read_directory, delete}
use os_2024_operatingsalsa.Shell.State.{
  Shell, file_syscall, local_strlen, print, say, strings_equal, current_cluster, literal, empty,
}
use os_2024_operatingsalsa.Shell.Input.{arg_size, parse_name_and_ext, ParsedName}
use os_2024_operatingsalsa.Shell.Files.{name_request}

abbrev pub entry_name : Bytes → ℕ → ParsedName
entry_name table i = record {
  code = 0;
  name = λ k. table (entry_at i + k);
  ext = λ k. table (ext_at i + k);
}

-- The loop of `rmHelper` over the entries from 1 on, with its recursive call as an argument: the entry of
-- the parent is one of them.
pub rm_children :
    (ParsedName → ℕ → ℕ → Shell → Option Shell) → ℕ → ℕ → Bytes → ℕ → Shell → Option Shell
rm_children helper zero i table deleted s = some s
rm_children helper (suc left) i table deleted s =
    let removed = helper (entry_name table i) deleted (entry_cluster table i) s in
    (if user_attribute table i == uattr_not_empty then removed else some s)
    >>= rm_children helper left (i + 1) table deleted

-- The fuel bounds the depth of the calls.
pub rm_helper : ℕ → Bytes → ParsedName → ℕ → ℕ → Shell → Option Shell
rm_helper zero garbage file parent deleted s = none
rm_helper (suc fuel) garbage file parent deleted s = do
  let request = name_request file parent 0
  let full_request = record request { buffer_size = 2048 }
  reply ← file_syscall (delete garbage) request garbage s
  if not (reply.retcode == 2) then some reply.shell else do
    target ← file_syscall (read_directory garbage) full_request garbage reply.shell
    emptied ← rm_children (rm_helper fuel garbage) 63 1 target.buffer deleted target.shell
    again ← file_syscall (delete garbage) full_request target.buffer emptied
    some again.shell

-- What the body of the loop of `rm` does with the argument in row `i`. The cluster that is handed to
-- `rmHelper` comes from entry `i` of the table that was read, where `i` counts the arguments.
unfoldable pub rm_one :
    ℕ → Bytes → Bool → ℕ → Bytes → Bytes → ParsedName → Shell → Option (Bytes × Shell)
rm_one fuel garbage recursive i args table file s = do
  reply ← file_syscall (read_directory garbage) (name_request file (current_cluster s) 2048) table s
  if (reply.retcode == 0) && not recursive
      then (do
        length ← local_strlen 9 file.name
        some (
          reply.buffer,
          say ": is a directory (usage: rm -r folder ...)\n" 0x4
              (print file.name 0 length 0x4 reply.shell),
        ))
      else if reply.retcode == 2
      then some (
        reply.buffer,
        say ": No such file or directory\n" 0x4
            (print args (arg_size * i) (strlen args (arg_size * i)) 0x4 reply.shell),
      )
      else do
        removed ←
            rm_helper fuel garbage file (current_cluster s) (entry_cluster reply.buffer i)
              reply.shell
        some (reply.buffer, removed)

-- The loop of `rm` with the rows that are left.
pub rm_loop : ℕ → ℕ → Bytes → Bool → ℕ → Bytes → Bytes → Shell → Option Shell
rm_loop fuel zero garbage recursive i args table s = none
rm_loop fuel (suc left) garbage recursive i args table s =
    let file = parse_name_and_ext args (arg_size * i) garbage garbage in
    let rest = rm_one fuel garbage recursive i args table file s >>= λ one.
    rm_loop fuel left garbage recursive (i + 1) args one.0 one.1 in
    if args (arg_size * i) == 0
    then some s
    else if not (file.code == 0)
    then some (say "filename or extension too long\n" 0x4 s)
    else rest

unfoldable pub rm : ℕ → Bytes → Bytes → Shell → Option Shell
unfolding rm_loop rm_one
rm fuel garbage args s =
    let recursive = strings_equal args arg_size (literal "-r") 0 in
    let first = if recursive then 2 else 1 in
    if args (arg_size * first) == 0
    then some (say "usage: rm [-r] file ...\n" 0x4 s)
    else rm_loop fuel (80 - first) garbage recursive first args empty s
