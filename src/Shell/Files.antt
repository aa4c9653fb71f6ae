-- ===== src/Shell/Files.antt =====
-- `cat` and `cp` of src/user-shell.c.
use os_2024_operatingsalsa.Base.{
  zero, suc, some, none, ◌>>=◌, Bytes, ℕ, String, if◌then◌else◌, is_zero, Option, ◌+◌, ltb, not,
  ◌==◌, ◌&&◌,
}
use os_2024_operatingsalsa.StringOps.{strlen, memcmp}
use os_2024_operatingsalsa.Fat32.Layout.{Request, filesize, entry_at, entry_cluster, ext_at}
use os_2024_operatingsalsa.Fat32.Ops.{read, write}
use os_2024_operatingsalsa.Shell.State.{
  Shell, file_syscall, print, say, strings_equal, new_request, long_request, current_cluster, empty,
}
use os_2024_operatingsalsa.Shell.Input.{parse_name_and_ext, ParsedName}
use os_2024_operatingsalsa.Shell.Folders.{unknown_error}

-- Where the dot of `arg2` is, or its end.
pub dot_loop : ℕ → ℕ → Bytes → ℕ → ℕ
dot_loop zero i args arg2 = i
dot_loop (suc left) i args arg2 =
    let rest = dot_loop left (i + 1) args arg2 in if args (arg2 + i) == b'.' then i else rest

-- The request of `cat`: the three bytes behind the dot, and the name before it.
unfoldable pub cat_request : Bytes → ℕ → ℕ → Request
unfolding dot_loop
cat_request args arg2 parent =
    let n = strlen args arg2 in
    let filenamelen = dot_loop n 0 args arg2 in
    let ext : Bytes =
      if ltb filenamelen n then (λ k. args (arg2 + filenamelen + 1 + k)) else empty in
    long_request (record (new_request empty 0 parent 2048) { ext = ext }) args arg2 filenamelen

-- The messages of `cat`: the second switch has a full stop in two of them.
abbrev pub cat_message : ℕ → String
cat_message retcode =
    if retcode == 1
    then "Not a file\n"
    else if retcode == 2
    then "Not enough buffer\n"
    else if retcode == 3
    then "File not found in this directory\n"
    else "Unknown error.\n"

abbrev pub cat_message_again : ℕ → String
cat_message_again retcode =
    if retcode == 1
    then "Not a file.\n"
    else if retcode == 2
    then "Not enough buffer.\n"
    else if retcode == 3
    then "File not found in this directory\n"
    else "Unknown error.\n"

-- The second half of `cat` reads the file again. Its length is taken up to the first zero, as `strlen`
-- does it.
unfoldable pub cat_show : Bytes → Request → Shell → Option Shell
cat_show garbage request s = do
  reply ← file_syscall (read garbage) request garbage s
  if reply.retcode == 0
      then some (say "\n" 0x07 (print reply.buffer 0 (strlen reply.buffer 0) 0x07 reply.shell))
      else some (say "\n" 0x4 (say (cat_message_again reply.retcode) 0x4 reply.shell))

unfoldable pub cat : Bytes → Bytes → ℕ → Shell → Option Shell
unfolding cat_request cat_show
cat garbage args arg2 s =
    if strlen args arg2 == 0 then some (say "\n" 0x4 (say "Missing destination file" 0x4 s)) else do
      let request = cat_request args arg2 (current_cluster s)
      reply ← file_syscall (read garbage) request garbage s
      if reply.retcode == 0
          then cat_show garbage
              (record (new_request request.name 0 (current_cluster s) 2048) { ext = request.ext })
              reply.shell
          else some (say (cat_message reply.retcode) 0x4 reply.shell)

-- The size of the last entry with the name of the source of `cp`.
pub size_loop : ℕ → ℕ → Bytes → ParsedName → ℕ → ℕ
size_loop zero i folder file found = found
size_loop (suc left) i folder file found =
    let matches =
      is_zero (memcmp folder (entry_at i) file.name 0 8)
      && is_zero (memcmp folder (ext_at i) file.ext 0 3) in
    size_loop left (i + 1) folder file (if matches then filesize folder i else found)

-- The last entry whose name is `dest`, if there is one.
pub dest_loop : ℕ → ℕ → Bytes → Bytes → ℕ → Option ℕ → Option ℕ
dest_loop zero i folder args dest found = found
dest_loop (suc left) i folder args dest found =
    dest_loop left (i + 1) folder args dest
      (if strings_equal folder (entry_at i) args dest then some (entry_cluster folder i) else found)

-- A request for a parsed name.
abbrev pub name_request : ParsedName → ℕ → ℕ → Request
name_request file parent size = record (new_request file.name 0 parent size) { ext = file.ext }

pub copy_read_message : ℕ → Option String
copy_read_message retcode =
    if retcode == unknown_error
    then some "An unknown error occurred\n"
    else if retcode == 1
    then some "Provided argument is not a file\n"
    else if retcode == 2
    then some "Not enough buffer size\n"
    else if retcode == 3
    then some "File not found\n"
    else none

pub copy_write_message : ℕ → Option String
copy_write_message retcode =
    if retcode == unknown_error
    then some "An unknown error occurred\n"
    else if retcode == 0
    then some "File successfully copied\n"
    else if retcode == 1
    then some "File/folder with the same name + ext already exists\n"
    else if retcode == 2
    then some "Invalid parent folder\n"
    else none

-- Where `cp` writes: under the old name into a folder `dest`, or under the name `dest`.
unfoldable pub copy_target : Bytes → Bytes → ParsedName → Bytes → ℕ → ℕ → ℕ → Request
unfolding dest_loop
copy_target garbage folder file args dest parent size =
    elim (dest_loop 64 0 folder args dest none) [
      | some target ↦ name_request file target size
      | none ↦ name_request (parse_name_and_ext args dest garbage garbage) parent size
    ]

pub copy_failed : ℕ → Shell → Option Shell
unfolding copy_read_message
copy_failed retcode s = do message ← copy_read_message retcode; some (say message 0x4 s)

unfoldable pub cp : Bytes → Bytes → ℕ → ℕ → Shell → Option Shell
unfolding size_loop copy_target copy_failed copy_write_message
cp garbage args src dest s = do
  let parent = current_cluster s
  let file = parse_name_and_ext args src garbage garbage
  let size = size_loop 64 0 s.current_folder file 0
  reply ← file_syscall (read garbage) (name_request file parent size) garbage s
  if not (reply.retcode == 0) then copy_failed reply.retcode reply.shell else do
    written ←
        file_syscall (write garbage)
          (copy_target garbage s.current_folder file args dest parent size) reply.buffer reply.shell
    message ← copy_write_message written.retcode
    some (say message 0x4 written.shell)
