-- ===== src/Shell/Search.antt =====
-- `getFullPath`, `DFSfind` and `find` of src/user-shell.c. `none` is also a recursion that does not end.
use os_2024_operatingsalsa.Base.{
  zero, suc, some, none, ◌>>=◌, Array, Bytes, ℕ, Option, Bool, if◌then◌else◌, false, ◌==◌, not,
  is_zero, store, ◌+◌, ◌-◌, true, ◌&&◌,
}
use os_2024_operatingsalsa.StringOps.{strlen, memcmp, memcpy}
use os_2024_operatingsalsa.Fat32.Layout.{
  Request, entry_cluster, entry_at, ext_at, root_cluster_number, packed, user_attribute,
  uattr_not_empty, name_at, attribute, request_ext_at, attr_subdirectory,
}
use os_2024_operatingsalsa.Fat32.Ops.{read_directory}
use os_2024_operatingsalsa.Shell.State.{
  Shell, file_syscall, local_strlen, print, say, new_request, literal, empty, append_part,
}
use os_2024_operatingsalsa.Shell.Input.{parse_name_and_ext, ParsedName}
use os_2024_operatingsalsa.Syscall.{request_at}

-- The request of `getFullPath`: the name may run over its field, and a zero goes behind it.
pub path_request : Bytes → ℕ → ℕ → Request
path_request names at parent =
    let n = strlen names at in
    let raw = packed (new_request empty 0 parent 2048) in
    request_at (store (memcpy raw name_at names at n) (name_at + n) 0) 0

-- The path of a folder, appended to `result`.
unfoldable pub get_full_path : ℕ → Bytes → ℕ → Bytes → ℕ → Bytes → Shell → Option (Bytes × Shell)
get_full_path zero garbage cluster names at result s = none
get_full_path (suc fuel) garbage cluster names at result s = do
  reply ← file_syscall (read_directory garbage) (path_request names at cluster) garbage s
  let table = reply.buffer
  let up = get_full_path fuel garbage (entry_cluster table 1) table (entry_at 1) result reply.shell
  if not (reply.retcode == 0)
      then some (result, reply.shell)
      else if is_zero (memcmp table 0 (literal "root") 0 8)
      then some (append_part result (literal "root") 0, reply.shell)
      else do
        above ← up
        some (append_part (append_part above.0 (literal "/") 0) table (entry_at 0), above.1)

-- The path of a folder, a slash and a name.
unfoldable pub named_path :
    ℕ → Bytes → ℕ → Bytes → ℕ → Bytes → ℕ → Bytes → Shell → Option (Bytes × Shell)
named_path fuel garbage cluster names at name name_at result s = do
  folder ← get_full_path fuel garbage cluster names at result s
  some (append_part (append_part folder.0 (literal "/") 0) name name_at, folder.1)

-- An extension that is not empty, behind a dot.
pub with_ext : Bytes → Bytes → ℕ → Bytes
with_ext path ext at =
    if strlen ext at == 0 then path else append_part (append_part path (literal ".") 0) ext at

-- The path that was found goes to the screen.
unfoldable pub show_path : Bytes → Shell → Shell
show_path path s = say "\n" 0x07 (print path 0 (strlen path 0) 0x07 s)

-- What a search changes: the `visited` of its caller, `result`, and the rest.
pub record Search : Type 0 where
  pub visited : Array Bool
  pub result : Bytes
  pub shell : Shell

abbrev pub unvisited : Array Bool
unvisited i = false

-- The path of entry `i` of a folder ends the call that finds it.
unfoldable pub dfs_found :
    ℕ → Bytes → ℕ → Bytes → ℕ → Bytes → ℕ → Bytes → ℕ → Bool → Search → Option Search
dfs_found fuel garbage cluster names at name name_at table i is_file w = do
  path ← named_path fuel garbage cluster names at name name_at w.result w.shell
  let full = if is_file then with_ext path.0 table (ext_at i) else path.0
  some (record w { result = full; shell = show_path full path.1 })

-- The loop of `DFSfind` over the entries from 2 on, with its recursive call as an argument: it takes the
-- cluster, the index of the entry in the table, and what the search changes. `fresh` is
-- `visitedNew`.
unfoldable pub dfs_loop :
    ℕ
    → Bytes
    → (ℕ → Bytes → ℕ → Search → Option Search)
    → ℕ
    → ℕ
    → ℕ
    → Bytes
    → ℕ
    → Bytes
    → Bytes
    → ℕ
    → Array Bool
    → Search
    → Option Search
dfs_loop fuel garbage visit zero i cluster names at table search find_at fresh w = some w
dfs_loop fuel garbage visit (suc left) i cluster names at table search find_at fresh w =
    let next = dfs_loop fuel garbage visit left (i + 1) cluster names at table search find_at in
    let below = visit (entry_cluster table i) table i (record w { visited = fresh }) >>= λ inner.
    next inner.visited (record inner { visited = w.visited }) in
    if not (user_attribute table i == uattr_not_empty)
    then next fresh w
    else if attribute table i == attr_subdirectory
    then (if is_zero (memcmp table (entry_at i) search find_at (strlen search find_at))
        then dfs_found fuel garbage cluster names at table (entry_at i) table i false w
        else if not (fresh (i - 1))
        then below
        else next fresh w)
    else if is_zero (memcmp table (entry_at i) search find_at 8)
    then dfs_found fuel garbage cluster names at search find_at table i true w
    else next fresh (record w { visited = store w.visited (i - 1) true })

-- The request of `DFSfind`: the name and the extension of entry `v`, each up to its first zero.
pub dfs_request : Bytes → ℕ → ℕ → Request
dfs_request table v parent =
    let raw = packed (new_request empty 0 parent 2048) in
    let named = memcpy raw name_at table (entry_at v) (strlen table (entry_at v)) in
    request_at (memcpy named request_ext_at table (ext_at v) (strlen table (ext_at v))) 0

unfoldable pub dfs_find : ℕ → Bytes → Bytes → ℕ → ℕ → Bytes → ℕ → Search → Option Search
dfs_find zero garbage search find_at cluster parent v w = none
dfs_find (suc fuel) garbage search find_at cluster parent v w = do
  let seen = store w.visited (v - 1) true
  reply ← file_syscall (read_directory garbage) (dfs_request parent v cluster) garbage w.shell
  let message = if reply.retcode == 2 then "Folder not found.\n" else "Unknown error.\n"
  if not (reply.retcode == 0)
      then some (record w { visited = seen; shell = say "\n" 0x4 (say message 0x4 reply.shell) })
      else dfs_loop fuel garbage (dfs_find fuel garbage search find_at) 62 2 cluster parent
          (entry_at v) reply.buffer search find_at unvisited
          (record w { visited = seen; shell = reply.shell })

-- The loop of `find` over the root; `true` is an early return. `name` and `ext` are arrays of eight and of
-- three bytes, which a full name or extension leaves without a terminator.
unfoldable pub search_loop :
    ℕ → Bytes → ℕ → ℕ → Bytes → Bytes → ℕ → ParsedName → Search → Option (Bool × Shell)
search_loop fuel garbage zero i table args args2 file w = some (false, w.shell)
search_loop fuel garbage (suc left) i table args args2 file w =
    let next = search_loop fuel garbage left (i + 1) table args args2 file in
    let same = is_zero (memcmp table (entry_at i) file.name 0 8) in
    let below = dfs_find fuel garbage args args2 (entry_cluster table i) table i w >>= next in
    let found_file = local_strlen 8 file.name >>= λ _.
    named_path fuel garbage root_cluster_number (literal "root") 0 file.name 0 w.result w.shell
    >>= λ path. local_strlen 3 file.ext >>= λ _.
        some (true, show_path (with_ext path.0 file.ext 0) path.1) in
    if not (user_attribute table i == uattr_not_empty)
    then next w
    else if attribute table i == attr_subdirectory
    then (if same && is_zero (memcmp table (entry_at i) args args2 (strlen args args2))
        then some (
          true,
          say "\n" 0x07 (
              print table (entry_at i) (strlen table (entry_at i)) 0x07 (say "root/" 0x07 w.shell)),
        )
        else if not (w.visited (i - 1))
        then below
        else next w)
    else if same
    then found_file
    else next (record w { visited = store w.visited (i - 1) true })

unfoldable pub find : ℕ → Bytes → Bytes → ℕ → Shell → Option Shell
unfolding search_loop
find fuel garbage args args2 s =
    if strlen args args2 == 0
    then some (say "\n" 0x4 (say "Missing destination file or folder operand" 0x4 s))
    else do
      let file = parse_name_and_ext args args2 garbage garbage
      reply ←
          file_syscall (read_directory garbage)
            (new_request (literal "root") 0 root_cluster_number 2048) garbage s
      let start : Search = record { visited = unvisited; result = empty; shell = reply.shell }
      searched ←
          (if reply.retcode == 0
            then search_loop fuel garbage 62 2 reply.buffer args args2 file start
            else some (false, reply.shell))
      some (if searched.0 then searched.1 else say "\n" 0x07 searched.1)
