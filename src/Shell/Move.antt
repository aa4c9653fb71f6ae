-- ===== src/Shell/Move.antt =====
-- `mv_folder` of src/user-shell.c.
use os_2024_operatingsalsa.Base.{
  zero, suc, some, none, ◌>>=◌, ℕ, Bytes, bit_or, store16, Option, ◌+◌, if◌then◌else◌, ◌*◌, ◌^◌,
  is_zero,
}
use os_2024_operatingsalsa.StringOps.{memcmp, memset}
use os_2024_operatingsalsa.Fat32.Layout.{Request, entry_at, cluster_low, cluster_high, entry_size}
use os_2024_operatingsalsa.Fat32.Ops.{read_directory, write, update_directory_table}
use os_2024_operatingsalsa.Shell.State.{Shell, file_syscall, new_request, current_cluster, empty}

-- The first loop: entries with the name of the source are cleared until the destination is found, whose
-- `cluster_low` and shifted `cluster_high` are kept.
pub target_loop : ℕ → ℕ → Bytes → ℕ → ℕ → Bytes → Bytes × Option (ℕ × ℕ)
target_loop zero i args src dest folder = (folder, none)
target_loop (suc left) i args src dest folder =
    let cleared =
      if is_zero (memcmp folder (entry_at i) args src 8)
      then memset folder (entry_at i) 0 entry_size
      else folder in
    let rest = target_loop left (i + 1) args src dest cleared in
    if is_zero (memcmp folder (entry_at i) args dest 8)
    then (folder, some (cluster_low folder i, cluster_high folder i * 2 ^ 16))
    else rest

-- `table[i].cluster_low = low; table[i].cluster_high = high`, each cut to 16 bits: of the shifted half
-- nothing is left.
abbrev pub store_cluster : Bytes → ℕ → ℕ → ℕ → Bytes
store_cluster table i low high =
    store16 (store16 table (entry_at i + 26) low) (entry_at i + 20) high

-- The last loop: the first entry with the name of the source gets its old cluster.
pub relink_loop : ℕ → ℕ → Bytes → ℕ → ℕ → ℕ → Bytes → Bytes
relink_loop zero i args src low high table = table
relink_loop (suc left) i args src low high table =
    let rest = relink_loop left (i + 1) args src low high table in
    if is_zero (memcmp table (entry_at i) args src 8) then store_cluster table i low high else rest

-- A request without a name, for `update_directory_table`.
abbrev table_request : ℕ → Request
table_request parent = new_request empty 0 parent 2048

-- The steps once the target is known. The codes of the calls are ignored. The buffer of `write` is never
-- read, since the size is 0.
pub move_to : Bytes → Bytes → ℕ → ℕ → ℕ → ℕ → ℕ → Bytes → Shell → Option Shell
move_to garbage args src dest current low high folder s = do
  let target = bit_or low high
  source ← file_syscall (read_directory garbage) (new_request args src current 2048) empty s
  updated ←
      file_syscall (update_directory_table garbage) (table_request current) folder source.shell
  let moved = store_cluster source.buffer 1 low high
  let src_low = cluster_low moved 0
  let src_high = cluster_high moved 0 * 2 ^ 16
  linked ←
      file_syscall (update_directory_table garbage) (table_request (bit_or src_low src_high)) moved
        (record updated.shell { current_folder = updated.buffer })
  made ← file_syscall (write garbage) (new_request args src target 0) empty linked.shell
  dest_table ←
      file_syscall (read_directory garbage) (new_request args dest current 2048)
        (memset linked.buffer 0 0 2048) made.shell
  done ←
      file_syscall (update_directory_table garbage) (table_request target)
        (relink_loop 64 0 args src src_low src_high dest_table.buffer) dest_table.shell
  some done.shell

-- Where no entry has the name of the destination, the source goes on with variables that are not set.
unfoldable pub mv_folder : Bytes → Bytes → ℕ → ℕ → Shell → Option Shell
unfolding target_loop move_to relink_loop
mv_folder garbage args src dest s =
    let (folder, target) = target_loop 64 0 args src dest s.current_folder in
    elim target [
      | none ↦ none
      | some (low, high) ↦
          move_to garbage args src dest (current_cluster s) low high folder
            (record s { current_folder = folder })
    ]
