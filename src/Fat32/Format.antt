-- ===== src/Fat32/Format.antt =====
-- `create_fat32`, `is_empty_storage` and `initialize_filesystem_fat32` of src/filesystem/fat32.c.
pub mod Mount
use os_2024_operatingsalsa.Base.{
  ℕ, zero, suc, ◌+◌, ◌==◌, if◌then◌else◌, ltb, Bytes, store, words_bytes, bytes_words, chars, Bool,
  not, is_zero, List, [], ◌∷◌, ◌++◌,
}
use os_2024_operatingsalsa.StringOps.{memset, memcpy, memcmp}
use os_2024_operatingsalsa.Disk.{write_blocks}
use os_2024_operatingsalsa.Fat32.Layout.{
  Fs, cluster_size, cluster_map_size, cluster_0_value, cluster_1_value, end_of_file, empty_entry,
  boot_sector, root_cluster_number, attr_subdirectory, uattr_not_empty,
}
use os_2024_operatingsalsa.Fat32.Cluster.{read_clusters, write_clusters}
use os_2024_operatingsalsa.Fat32.Directory.{insert_directory}

abbrev spaces : ℕ → List ℕ
spaces zero = []
spaces (suc n) = b' ' ∷ spaces n

abbrev dashes : ℕ → List ℕ
dashes zero = []
dashes (suc n) = b'-' ∷ dashes n

abbrev signature_text : List ℕ
signature_text =
    (b'C' ∷ b'o' ∷ b'u' ∷ b'r' ∷ b's' ∷ b'e' ∷ spaces 10)
    ++ (b'D' ∷ b'e' ∷ b's' ∷ b'i' ∷ b'g' ∷ b'n' ∷ b'e' ∷ b'd' ∷ b' ' ∷ b'b' ∷ b'y' ∷ spaces 5)
    ++ (b'L'
        ∷ b'a'
        ∷ b'b'
        ∷ b' '
        ∷ b'S'
        ∷ b'i'
        ∷ b's'
        ∷ b't'
        ∷ b'e'
        ∷ b'r'
        ∷ b' '
        ∷ b'I'
        ∷ b'T'
        ∷ b'B'
        ∷ spaces 2)
    ++ (b'M'
        ∷ b'a'
        ∷ b'd'
        ∷ b'e'
        ∷ b' '
        ∷ b'w'
        ∷ b'i'
        ∷ b't'
        ∷ b'h'
        ∷ b' '
        ∷ b'<'
        ∷ b'3'
        ∷ spaces 4)
    ++ (dashes 11 ++ (b'2' ∷ b'0' ∷ b'2' ∷ b'4' ∷ 10 ∷ []))

unfoldable pub fs_signature : Bytes
unfolding chars
fs_signature x = if x == 510 then b'O' else if x == 511 then b'k' else chars signature_text x

-- `for (i = 0; i < CLUSTER_MAP_SIZE; i++) write_clusters(empty_cluster, i, 1)`.
clear_disk : ℕ → ℕ → Bytes → Bytes → Bytes
clear_disk zero i empty_cluster storage = storage
clear_disk (suc left) i empty_cluster storage =
    clear_disk left (i + 1) empty_cluster (write_clusters storage empty_cluster 0 i 1)

-- The assignments to `cluster_map`: three reserved values and 509 empty entries.
map_loop : ℕ → ℕ → (ℕ → ℕ) → ℕ → ℕ
map_loop zero i map = map
map_loop (suc left) i map = map_loop left (i + 1) (store map i empty_entry)

fresh_map : (ℕ → ℕ) → ℕ → ℕ
unfolding map_loop
fresh_map map =
    map_loop 509 3 (store (store (store map 0 cluster_0_value) 1 cluster_1_value) 2 end_of_file)

-- `root` and `empty_cluster` are locals: `garbage` is what the stack holds where they stand. Only
-- entries 0 and 1 of `root` are assigned.
root_table : Bytes → Bytes
unfolding chars
root_table garbage =
    let one =
      insert_directory garbage 0 (chars (b'r' ∷ b'o' ∷ b'o' ∷ b't' ∷ [])) 0 (chars []) 0
        attr_subdirectory uattr_not_empty root_cluster_number 0 in
    insert_directory one 1 (chars (b'.' ∷ b'.' ∷ [])) 0 (chars []) 0 attr_subdirectory
      uattr_not_empty root_cluster_number 0

unfoldable pub create_fat32 : Bytes → Fs → Fs
unfolding clear_disk fresh_map root_table
create_fat32 garbage fs =
    let empty_cluster = memset garbage 0 0 cluster_size in
    let cleared = clear_disk cluster_map_size 0 empty_cluster fs.storage in
    let boot_sector_ptr = memcpy garbage 0 fs_signature 0 512 in
    let map = fresh_map fs.cluster_map in
    let s1 = write_blocks cleared boot_sector_ptr 0 0 1 in
    let s2 = write_clusters s1 (words_bytes map) 0 1 1 in
    let s3 = write_clusters s2 (root_table garbage) 0 2 1 in
    record fs { cluster_map = map; storage = s3 }

-- The comparison of the first block with the signature; the buffer is a local.
unfoldable pub is_empty_storage : Bytes → Fs → Bool
is_empty_storage garbage fs =
    let sector = read_clusters fs.storage garbage 0 boot_sector 1 in
    not (is_zero (memcmp sector 0 fs_signature 0 512))

-- The branch that mounts a formatted disk reads cluster 1 over the cached table.
unfoldable pub load_map : Fs → Fs
load_map fs = record fs {
  cluster_map = bytes_words (read_clusters fs.storage (words_bytes fs.cluster_map) 0 1 1);
}

unfoldable pub initialize_filesystem_fat32 : Bytes → Fs → Fs
unfolding create_fat32 is_empty_storage load_map
initialize_filesystem_fat32 garbage fs =
    if is_empty_storage garbage fs then create_fat32 garbage fs else load_map fs
