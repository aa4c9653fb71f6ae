-- ===== src/Fat32/Alloc.antt =====
-- `first_fit` and `is_valid_parent_cluster` of src/filesystem/fat32.c.
pub mod FirstFit
pub mod Parent
use os_2024_operatingsalsa.Base.{
  ℕ, zero, suc, ◌+◌, ◌-◌, ◌==◌, if◌then◌else◌, ltb, leb, Array, Bytes, ℤ, pos, minus_one, Bool,
  true, false, not, ◌&&◌, ◌||◌,
}
use os_2024_operatingsalsa.Fat32.Layout.{
  Fs, cluster_map_size, empty_entry, end_of_file, root_cluster_number, attribute, attr_subdirectory,
}
use os_2024_operatingsalsa.Fat32.Cluster.{read_clusters}

-- `while (i < CLUSTER_MAP_SIZE && cluster_map[i] != EMPTY) i++`.
skip_used : ℕ → Array ℕ → ℕ → ℕ
skip_used zero map i = i
skip_used (suc fuel) map i =
    let rest = skip_used fuel map (i + 1) in
    if ltb i cluster_map_size && not (map i == empty_entry) then rest else i

-- `while (i < CLUSTER_MAP_SIZE && cluster_map[i] == EMPTY) i++`; `empty_count` is what `i` gains.
skip_empty : ℕ → Array ℕ → ℕ → ℕ
skip_empty zero map i = i
skip_empty (suc fuel) map i =
    let rest = skip_empty fuel map (i + 1) in
    if ltb i cluster_map_size && (map i == empty_entry) then rest else i

-- One round of the outer loop finds the next run of empty entries and compares its length.
first_fit_loop : ℕ → Array ℕ → ℕ → ℕ → ℤ
first_fit_loop zero map clusters_needed start_idx = minus_one
first_fit_loop (suc fuel) map clusters_needed start_idx =
    let found = skip_used cluster_map_size map start_idx in
    let search_idx = skip_empty cluster_map_size map found in
    let rest = first_fit_loop fuel map clusters_needed search_idx in
    if ltb start_idx cluster_map_size
    then if leb cluster_map_size found
      then minus_one
      else if leb clusters_needed (search_idx - found)
      then pos found
      else rest
    else minus_one

unfoldable pub first_fit : Array ℕ → ℕ → ℤ
unfolding skip_used skip_empty first_fit_loop
first_fit map clusters_needed = first_fit_loop cluster_map_size map clusters_needed 3

-- `garbage` is what the stack holds where the local `test_folder` stands.
unfoldable pub is_valid_parent_cluster : Bytes → Fs → ℕ → Bool
is_valid_parent_cluster garbage fs cluster_number =
    let test_folder = read_clusters fs.storage garbage 0 cluster_number 1 in
    if leb cluster_map_size cluster_number || ltb cluster_number root_cluster_number
    then false
    else if not (fs.cluster_map cluster_number == end_of_file)
    then false
    else (attribute test_folder 0 == attr_subdirectory)
      && (attribute test_folder 1 == attr_subdirectory)
