-- ===== src/Fat32/Ops.antt =====
-- `read`, `read_directory`, `write`, `delete` and `update_directory_table` of
-- src/filesystem/fat32.c. A result holds the code that the function returns and the state it leaves;
-- `none` is an access outside of an array or an endless chain. `garbage` is what the stack holds
-- where the uninitialised locals stand.
mod Read
pub mod Chain
pub mod StoreFile
pub mod Stored
pub mod RoundTrip
pub mod Codes
pub mod Written
pub mod Freed
pub mod Delete
pub mod Folder
pub mod Kept
unfoldable pub use Read.*
use os_2024_operatingsalsa.Base.{
  ℕ, zero, suc, ◌+◌, ◌-◌, ◌*◌, ◌==◌, if◌then◌else◌, ltb, leb, Array, Bytes, store, words_bytes,
  chars, Bool, not, ◌&&◌, ℤ, pos, negsuc, minus_one, Option, none, some, ◌>>=◌, [], ◌∷◌,
}
use os_2024_operatingsalsa.StringOps.{memset}
use os_2024_operatingsalsa.Fat32.Layout.{
  Fs, Request, packed, name_at, request_ext_at, cluster_size, cluster_map_size, end_of_file,
  empty_entry, fat_cluster_number, attribute, attr_subdirectory, uattr_not_empty, filesize,
  entry_cluster, entry_at, entry_size,
}
use os_2024_operatingsalsa.Fat32.Cluster.{read_clusters, write_clusters, bytes_to_cluster}
use os_2024_operatingsalsa.Fat32.Directory.{
  insert_directory, find_entry, find_duplicate, free_slot, table_not_empty,
}
use os_2024_operatingsalsa.Fat32.Alloc.{first_fit, is_valid_parent_cluster}

-- `target_cluster = 3; while (cluster_map[target_cluster] != EMPTY) target_cluster++`: past the end
-- of the table the source goes on reading.
pub free_cluster_loop : ℕ → ℕ → Array ℕ → Option ℕ
free_cluster_loop zero i map = none
free_cluster_loop (suc left) i map =
    let rest = free_cluster_loop left (i + 1) map in if map i == empty_entry then some i else rest

unfoldable pub free_cluster : Array ℕ → Option ℕ
unfolding free_cluster_loop
free_cluster map = free_cluster_loop 509 3 map

-- The table of a new folder: itself and its parent.
pub new_folder_table : Bytes → Request → ℕ → Bytes
new_folder_table garbage request target_cluster =
    let cleared = memset garbage 0 0 2048 in
    let one =
      insert_directory cleared 0 (packed request) name_at (chars []) 0 attr_subdirectory
        uattr_not_empty target_cluster 0 in
    insert_directory one 1 (chars (b'.' ∷ b'.' ∷ [])) 0 (chars []) 0 attr_subdirectory
      uattr_not_empty request.parent_cluster_number 0

-- The state that the branch for a folder leaves, with its table at `target_cluster` and its entry at
-- `i`.
pub store_folder : Bytes → Request → Bytes → ℕ → ℕ → Fs → Fs
store_folder garbage request parent_folder target_cluster i fs =
    let new_folder = new_folder_table garbage request target_cluster in
    let parent' =
      insert_directory parent_folder i (packed request) name_at (chars []) 0 attr_subdirectory
        uattr_not_empty target_cluster 0 in
    let map = store fs.cluster_map target_cluster end_of_file in
    let s1 = write_clusters fs.storage new_folder 0 target_cluster 1 in
    let s2 = write_clusters s1 parent' 0 request.parent_cluster_number 1 in
    let s3 = write_clusters s2 (words_bytes map) 0 fat_cluster_number 1 in
    record fs { cluster_map = map; storage = s3 }

-- The branch of `write` for `buffer_size == 0`.
pub write_folder : Bytes → Request → Bytes → Fs → Outcome
write_folder garbage request parent_folder fs = do
  target_cluster ← free_cluster fs.cluster_map
  i ← free_slot parent_folder
  some (pos 0, store_folder garbage request parent_folder target_cluster i fs)

-- The loop of `write` that links the clusters of a file and stores its bytes; `k` is
-- `i - cluster_idx`.
pub write_chain : ℕ → ℕ → ℕ → ℕ → ℕ → Fs → Fs
write_chain zero k cluster_idx clusters_needed buf fs = fs
write_chain (suc left) k cluster_idx clusters_needed buf fs =
    let i = cluster_idx + k in
    let link = if i == (cluster_idx + clusters_needed - 1) then end_of_file else i + 1 in
    write_chain left (k + 1) cluster_idx clusters_needed buf (record fs {
      cluster_map = store fs.cluster_map i link;
      storage = write_clusters fs.storage fs.ram (buf + cluster_size * k) i 1;
    })

-- The state that the branch for a file leaves, with its clusters from `cluster_idx` on and its entry
-- at `i`.
pub store_file : Request → Bytes → ℕ → ℕ → Fs → Fs
store_file request parent_folder cluster_idx i fs =
    let clusters_needed = bytes_to_cluster request.buffer_size in
    let parent' =
      insert_directory parent_folder i (packed request) name_at (packed request) request_ext_at 0
        uattr_not_empty cluster_idx request.buffer_size in
    let s1 = write_clusters fs.storage parent' 0 request.parent_cluster_number 1 in
    let stored =
      write_chain clusters_needed 0 cluster_idx clusters_needed request.buf
        (record fs { storage = s1 }) in
    record stored {
      storage =
          write_clusters stored.storage (words_bytes stored.cluster_map) 0 fat_cluster_number 1;
    }

-- The branch for a file once `first_fit` has found a place.
pub write_file_at : Request → Bytes → ℕ → Fs → Outcome
write_file_at request parent_folder cluster_idx fs = do
  i ← free_slot parent_folder
  some (pos 0, store_file request parent_folder cluster_idx i fs)

-- `cluster_idx > 0` holds exactly for an index that `first_fit` found.
pub write_file : Request → Bytes → Fs → Outcome
write_file request parent_folder fs =
    elim (first_fit fs.cluster_map (bytes_to_cluster request.buffer_size)) [
      | pos zero ↦ some (minus_one, fs)
      | pos (suc n) ↦ write_file_at request parent_folder (suc n) fs
      | negsuc n ↦ some (minus_one, fs)
    ]

pub write : Bytes → Request → Fs → Outcome
write garbage request fs =
    let parent_folder = read_clusters fs.storage garbage 0 request.parent_cluster_number 1 in
    if not (is_valid_parent_cluster garbage fs request.parent_cluster_number)
    then some (pos 2, fs)
    else elim (find_duplicate request parent_folder) [
      | some i ↦ some (pos 1, fs)
      | none ↦
          if request.buffer_size == 0
          then write_folder garbage request parent_folder fs
          else write_file request parent_folder fs
    ]

-- `folder_not_empty`.
unfoldable pub folder_not_empty : Bytes → Fs → ℕ → Bool
folder_not_empty garbage fs cluster_number =
    table_not_empty (read_clusters fs.storage garbage 0 cluster_number 1)

-- The loop of `delete` that wipes the clusters of a chain and frees their entries. A chain that comes back
-- to a cluster finds its entry empty and goes on at cluster 0, so that it has at most one round more
-- than the table has entries, or never ends.
pub free_chain : ℕ → Bytes → ℕ → Fs → Option Fs
free_chain zero empty_cluster j fs = none
free_chain (suc fuel) empty_cluster j fs =
    let next = fs.cluster_map j in
    let fs' = record fs {
      cluster_map = store fs.cluster_map j empty_entry;
      storage = write_clusters fs.storage empty_cluster 0 j 1;
    } in
    let rest = free_chain fuel empty_cluster next fs' in
    if leb cluster_map_size j then none else if next == end_of_file then some fs' else rest

-- The body of the loop of `delete` at the entry that matches.
unfoldable pub delete_entry : Bytes → Request → Bytes → Fs → ℕ → Outcome
delete_entry garbage request parent_folder fs i =
    let j = entry_cluster parent_folder i in
    let parent' = memset parent_folder (entry_at i) 0 entry_size in
    if (attribute parent_folder i == attr_subdirectory) && folder_not_empty garbage fs j
    then some (pos 2, fs)
    else do
      freed ← free_chain (cluster_map_size + 1) (memset garbage 0 0 cluster_size) j fs
      let s1 = write_clusters freed.storage (words_bytes freed.cluster_map) 0 1 1
      let s2 = write_clusters s1 parent' 0 request.parent_cluster_number 1
      some (pos 0, record freed { storage = s2 })

unfoldable pub delete : Bytes → Request → Fs → Outcome
delete garbage request fs =
    let parent_folder = read_clusters fs.storage garbage 0 request.parent_cluster_number 1 in
    if not (is_valid_parent_cluster garbage fs request.parent_cluster_number)
    then some (minus_one, fs)
    else elim (find_entry request parent_folder) [
      | none ↦ some (pos 1, fs)
      | some i ↦ delete_entry garbage request parent_folder fs i
    ]

pub update_directory_table : Bytes → Request → Fs → Outcome
update_directory_table garbage request fs =
    let parent_folder = read_clusters fs.storage garbage 0 request.parent_cluster_number 1 in
    if not (is_valid_parent_cluster garbage fs request.parent_cluster_number)
    then some (minus_one, fs)
    else if not (attribute parent_folder 0 == attr_subdirectory)
    then some (pos 1, fs)
    else some (
      pos 0,
      record fs {
        storage = write_clusters fs.storage fs.ram request.buf request.parent_cluster_number 1;
      },
    )
