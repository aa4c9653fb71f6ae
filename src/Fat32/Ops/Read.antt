-- ===== src/Fat32/Ops/Read.antt =====
-- `read` and `read_directory` of src/filesystem/fat32.c, and what the operations share.
use os_2024_operatingsalsa.Base.{
  ℕ, zero, suc, ◌+◌, ◌*◌, ◌==◌, if◌then◌else◌, ltb, leb, Bytes, not, ℤ, pos, minus_one, Option,
  none, some, ◌>>=◌,
}
use os_2024_operatingsalsa.Fat32.Layout.{
  Fs, Request, cluster_size, cluster_map_size, end_of_file, attribute, attr_subdirectory, filesize,
  entry_cluster,
}
use os_2024_operatingsalsa.Fat32.Cluster.{read_clusters, bytes_to_cluster}
use os_2024_operatingsalsa.Fat32.Directory.{find_entry}
use os_2024_operatingsalsa.Fat32.Alloc.{is_valid_parent_cluster}

abbrev pub Outcome : Type 0
Outcome = Option (ℤ × Fs)

-- `do { read_clusters(buf + CLUSTER_SIZE*k, j, 1); j = cluster_map[j]; k++; } while (j != EOF)`.
-- A chain that has not ended after as many steps as the table has entries is a cycle.
unfoldable pub read_chain : ℕ → Fs → ℕ → ℕ → ℕ → Option Fs
read_chain zero fs buf j k = none
read_chain (suc fuel) fs buf j k =
    let fs' = record fs { ram = read_clusters fs.storage fs.ram (buf + cluster_size * k) j 1 } in
    let next = fs.cluster_map j in
    let rest = read_chain fuel fs' buf next (k + 1) in
    if leb cluster_map_size j then none else if next == end_of_file then some fs' else rest

-- The table of the parent is read into `dir_table_buf`.
unfoldable pub load_parent : Request → Fs → Fs
load_parent request fs = record fs {
  dir_table_buf = read_clusters fs.storage fs.dir_table_buf 0 request.parent_cluster_number 1;
}

-- The body of the loop of `read` at the entry that matches.
unfoldable pub read_entry : Request → Fs → ℕ → Outcome
read_entry request fs i =
    if attribute fs.dir_table_buf i == attr_subdirectory
    then some (pos 1, fs)
    else if ltb request.buffer_size (filesize fs.dir_table_buf i)
    then some (pos 2, fs)
    else do
      fs' ← read_chain cluster_map_size fs request.buf (entry_cluster fs.dir_table_buf i) 0
      some (pos 0, fs')

unfoldable pub read : Bytes → Request → Fs → Outcome
read garbage request fs =
    let loaded = load_parent request fs in
    if not (is_valid_parent_cluster garbage fs request.parent_cluster_number)
    then some (minus_one, fs)
    else elim (find_entry request loaded.dir_table_buf) [
      | none ↦ some (pos 3, loaded)
      | some i ↦ read_entry request loaded i
    ]

unfoldable pub read_directory_entry : Request → Fs → ℕ → Outcome
read_directory_entry request fs i =
    if attribute fs.dir_table_buf i == attr_subdirectory
    then some (
      pos 0,
      record fs {
        ram =
            read_clusters fs.storage fs.ram request.buf (entry_cluster fs.dir_table_buf i)
              (bytes_to_cluster request.buffer_size);
      },
    )
    else some (pos 1, fs)

unfoldable pub read_directory : Bytes → Request → Fs → Outcome
read_directory garbage request fs =
    let loaded = load_parent request fs in
    if not (is_valid_parent_cluster garbage fs request.parent_cluster_number)
    then some (minus_one, fs)
    else elim (find_entry request loaded.dir_table_buf) [
      | none ↦ some (pos 2, loaded)
      | some i ↦ read_directory_entry request loaded i
    ]
