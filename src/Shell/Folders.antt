-- ===== src/Shell/Folders.antt =====
-- `update_cwd_contents`, `cd`, `ls` and `mkdir` of src/user-shell.c. Where the source leaves its
-- `message` unset, the call that shows it has no result.
pub mod Path
pub mod Make
use os_2024_operatingsalsa.Base.{
  zero, suc, some, none, ◌>>=◌, ℕ, Bytes, ◌+◌, String, Option, ◌^◌, ◌&&◌, ◌-◌, if◌then◌else◌, not,
  is_zero, ◌*◌, ◌==◌, ltb, store,
}
use os_2024_operatingsalsa.StringOps.{strlen, memcmp, memcpy, memset}
use os_2024_operatingsalsa.Fat32.Layout.{
  entry_at, entry_cluster, attribute, ext_at, root_cluster_number, attr_subdirectory,
}
use os_2024_operatingsalsa.Fat32.Ops.{read_directory, write}
use os_2024_operatingsalsa.Shell.State.{
  Shell, file_syscall, print, say, strings_equal, local_strlen, new_request, current_cluster,
  literal, empty,
}
use os_2024_operatingsalsa.Shell.Input.{arg_size}

-- -1 as a `uint32_t`.
abbrev pub unknown_error : ℕ
unknown_error = 2 ^ 32 - 1

-- The request has no place for its code: the kernel stores it at address 0.
unfoldable pub update_cwd_contents : Bytes → Shell → Option Shell
update_cwd_contents garbage s = do
  reply ←
      file_syscall (read_directory garbage)
        (new_request s.current_folder 0 (current_cluster s) 2048) s.current_folder s
  some (record reply.shell { current_folder = reply.buffer })

-- The entries from 2 on whose name is `arg2` and that are folders: the last of them wins.
pub cd_loop : ℕ → ℕ → Bytes → Bytes → ℕ → Option ℕ → Option ℕ
cd_loop zero i folder args arg2 found = found
cd_loop (suc left) i folder args arg2 found =
    let matches =
      strings_equal folder (entry_at i) args arg2 && (attribute folder i == attr_subdirectory) in
    cd_loop left (i + 1) folder args arg2 (if matches then some (entry_cluster folder i) else found)

unfoldable pub cd_target : Bytes → Bytes → ℕ → Option ℕ
unfolding cd_loop
cd_target folder args arg2 =
    if strings_equal folder 0 args arg2
    then cd_loop 62 2 folder args arg2 none
    else some (entry_cluster folder 0)

-- The message for a code of `read_directory`.
unfoldable pub directory_message : ℕ → Option String
directory_message retcode =
    if retcode == unknown_error
    then some "An unknown error occurred\n"
    else if retcode == 1
    then some "Provided argument is not a folder\n"
    else if retcode == 2
    then some "Folder not found\n"
    else none

-- `while (cwd[i] != '/') i--`.
pub slash_loop : ℕ → Bytes → Option ℕ
slash_loop zero cwd = if cwd 0 == b'/' then some 0 else none
slash_loop (suc i) cwd =
    let rest = slash_loop i cwd in if cwd (suc i) == b'/' then some (suc i) else rest

unfoldable pub cwd_up : Bytes → Option Bytes
unfolding slash_loop
cwd_up cwd =
    let n = strlen cwd 0 in
    if ltb n 2
    then none
    else do i ← slash_loop (n - 2) cwd; some (memset cwd (i + 1) 0 (80 - (i + 1)))

-- `cwd[i] = arg2[i - cwdlen]` for the bytes of `arg2`, and a slash.
unfoldable pub cwd_down : Bytes → Bytes → ℕ → Option Bytes
cwd_down cwd args arg2 =
    let n = strlen cwd 0 in
    let m = strlen args arg2 in
    if ltb (n + m) 80 then some (store (memcpy cwd n args arg2 m) (n + m) b'/') else none

-- The end of `cd` once the folder is read.
unfoldable pub cd_done : Bytes → ℕ → Shell → Option Shell
cd_done args arg2 s = do
  cwd ←
      (if is_zero (memcmp (literal "..") 0 args arg2 (strlen args arg2))
        then cwd_up s.cwd
        else cwd_down s.cwd args arg2)
  some (record s { cwd = cwd })

unfoldable pub cd_into : Bytes → Bytes → ℕ → ℕ → Shell → Option Shell
unfolding directory_message cd_done
cd_into garbage args arg2 target_cluster s = do
  reply ←
      file_syscall (read_directory garbage) (new_request args arg2 target_cluster 2048)
        s.current_folder s
  let entered = record reply.shell { current_folder = reply.buffer }
  if reply.retcode == 0
      then cd_done args arg2 entered
      else do message ← directory_message reply.retcode; some (say message 4 entered)

unfoldable pub cd : Bytes → Bytes → ℕ → Shell → Option Shell
unfolding cd_target cd_into
cd garbage args arg2 s = elim (cd_target s.current_folder args arg2) [
  | none ↦ some (say "Folder not found\n" 4 s)
  | some target_cluster ↦
      if (target_cluster == root_cluster_number) && strings_equal (literal "..") 0 args arg2
      then some (say "Already in root folder\n" 4 s)
      else cd_into garbage args arg2 target_cluster s
]

-- The name that a line of `ls` shows, and a dot and the extension where there is one.
unfoldable pub ls_line : Bytes → ℕ → Bytes → ℕ → Shell → Shell
unfolding say print
ls_line name length table i s =
    let named = print name 0 length 0xF s in
    let full =
      if not (table (ext_at i) == 0)
      then print table (ext_at i) 3 0xF (say "." 0xF named)
      else named in
    say "\n" 0xF full

-- One line of `ls`. The copy of the name has no room for a terminator when it has eight bytes.
unfoldable pub ls_entry : Bytes → Bytes → ℕ → Shell → Option Shell
unfolding ls_line local_strlen
ls_entry garbage table i s =
    let name = memcpy garbage 0 table (entry_at i) 8 in
    if name 0 == 0
    then some s
    else do length ← local_strlen 8 name; some (ls_line name length table i s)

unfoldable pub ls_loop : ℕ → ℕ → Bytes → Bytes → Shell → Option Shell
ls_loop zero i garbage table s = some s
ls_loop (suc left) i garbage table s = do
  next ← ls_entry garbage table i s
  ls_loop left (i + 1) garbage table next

unfoldable pub ls : Bytes → Shell → Option Shell
unfolding ls_loop directory_message
ls garbage s = do
  reply ←
      file_syscall (read_directory garbage)
        (new_request s.current_folder 0 (current_cluster s) 2048) empty s
  if reply.retcode == 0
      then ls_loop 62 2 garbage reply.buffer reply.shell
      else do message ← directory_message reply.retcode; some (say message 4 reply.shell)

abbrev pub mkdir_message : ℕ → String
mkdir_message retcode =
    if retcode == 1
    then "Folder already exists\n"
    else if retcode == 2
    then "Invalid parent cluster\n"
    else "An unknown error occurred\n"

-- The loop of `mkdir` with the arguments that are left.
pub mkdir_loop : ℕ → ℕ → ℕ → Bytes → Bytes → Shell → Option Shell
mkdir_loop zero i cluster garbage args s = none
mkdir_loop (suc left) i cluster garbage args s = if args (arg_size * i) == 0 then some s else do
  reply ←
      file_syscall (write garbage) (new_request args (arg_size * i) cluster 0) s.current_folder s
  let kept = record reply.shell { current_folder = reply.buffer }
  mkdir_loop left (i + 1) cluster garbage args
      (if reply.retcode == 0 then kept else say (mkdir_message reply.retcode) 4 kept)

unfoldable pub mkdir : Bytes → Bytes → Shell → Option Shell
unfolding mkdir_loop
mkdir garbage args s = mkdir_loop 79 1 (current_cluster s) garbage args s
