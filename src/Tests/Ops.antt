-- ===== src/Tests/Ops.antt =====
-- Applications of the theorems about `write`, `delete` and `create_fat32` of
-- src/filesystem/fat32.c to a small disk.
use os_2024_operatingsalsa.Base.{
  refl, zero, ℕ, ◌<◌, Bytes, if◌then◌else◌, chars, ltb, ◌∷◌, ◌≤◌, ◌==◌, arith, load16, ◌≢◌, ◌*◌,
  ◌≡◌, [], suc, ◌+◌, some, pos, ◌%◌, words_bytes, ◌-◌, ◌/◌,
}
use os_2024_operatingsalsa.Disk.{read_blocks}
use os_2024_operatingsalsa.StringOps.{memcpy}
use os_2024_operatingsalsa.Tests.Fat32.{
  small_map, zeros, counting, small_fs, file_request, small_fs-IsFolder, small_table,
}
use os_2024_operatingsalsa.Fat32.Ops.Codes.{Wrote, write-Wrote}
use os_2024_operatingsalsa.Fat32.Alloc.Parent.{IsFolder}
use os_2024_operatingsalsa.Fat32.Ops.{free_cluster, write, delete, read}
use os_2024_operatingsalsa.Fat32.Format.{initialize_filesystem_fat32, create_fat32}
use os_2024_operatingsalsa.Fat32.Ops.Folder.{CanMake, write-IsFolder}
use os_2024_operatingsalsa.Fat32.Layout.{
  Fs, entry_cluster, Request, entry_count, cluster_size, entry_at, end_of_file, attr_subdirectory,
  cluster_map_size, empty_entry,
}
use os_2024_operatingsalsa.Fat32.Directory.{free_slot}
use os_2024_operatingsalsa.Fat32.Ops.Delete.{CanDelete, read-delete, delete_frees}
use os_2024_operatingsalsa.Fat32.Directory.Find.{HasName}
use os_2024_operatingsalsa.Fat32.Ops.Stored.{parent_table}
use os_2024_operatingsalsa.Fat32.Format.Mount.{
  create_fat32-IsFolder, fresh_entry, initialize-create,
}
use os_2024_operatingsalsa.Fat32.Cluster.Laws.{read_clusters_lem}
use os_2024_operatingsalsa.Fat32.Ops.Freed.{member}
use os_2024_operatingsalsa.Fat32.Cluster.{read_clusters}
use os_2024_operatingsalsa.StringOps.Memory.{in_range}

-- The root folder with the file `a` as entry 2, which takes clusters 3 and 4.
abbrev pub full_disk : Bytes
full_disk x =
    if x == 4107
    then attr_subdirectory
    else if x == 4139
    then attr_subdirectory
    else if x == 4160
    then b'a'
    else if x == 4186
    then 3
    else 0

abbrev pub full_map : ℕ → ℕ
full_map x =
    if ltb x 3 then end_of_file else if x == 3 then 4 else if x == 4 then end_of_file else 0

abbrev pub full_fs : Fs
full_fs = record small_fs { cluster_map = full_map; storage = full_disk }

full_table :
    (x : ℕ) → x < cluster_size → parent_table zeros file_request full_fs x ≡ full_disk (4096 + x)
full_table x h = ground (arith, read_clusters_lem full_disk zeros 0 2 1 x)

pub only_entry :
    (k : ℕ)
    → k < entry_count
    → k ≢ 2
    → ¬ HasName file_request (parent_table zeros file_request full_fs) k
unfolding chars
only_entry k h n v = ground (arith, v.name 0, full_table (entry_at k))

entry_named : HasName file_request (parent_table zeros file_request full_fs) 2
unfolding chars
entry_named = record {
  name = λ k h. ground (arith, full_table (64 + k), name_at_2 k);
  ext = λ k h. ground (arith, full_table (72 + k));
}
  where
    name_at_2 : (k : ℕ) → file_request.name k ≡ (if k == 0 then b'a' else 0)
    name_at_2 zero = refl
    name_at_2 (suc k) = ground arith

first_cluster : entry_cluster (parent_table zeros file_request full_fs) 2 ≡ 3
unfolding entry_cluster load16 read_clusters read_blocks memcpy
first_cluster = refl

pub file_request-CanDelete : CanDelete zeros file_request full_fs 2 (3 ∷ 4 ∷ [])
file_request-CanDelete = record {
  folder = record {
    lower = omega arith;
    upper = omega arith;
    last = refl;
    self = refl;
    parent = refl;
  };
  inside = omega arith;
  named = entry_named;
  first = λ k h. only_entry k (omega arith) (omega arith);
  chain = rw first_cluster (refl, omega arith, refl, omega arith, (refl, omega arith, refl));
  distinct = (refl, (refl, tt));
  removable = ground (arith, full_table 75);
}

delete_frees_example :
    (fs1 : Fs) × (delete zeros file_request full_fs ≡ some (pos 0, fs1))
    × ((x : ℕ) → fs1.cluster_map x ≡ (if member x (3 ∷ 4 ∷ []) then empty_entry else full_map x))
    × ((x : ℕ)
        → fs1.storage x ≡ (
            if in_range (cluster_size * 2) cluster_size x
            then (if in_range (cluster_size * 2 + entry_at 2) 32 x then 0 else full_disk x)
            else if in_range cluster_size cluster_size x
            then words_bytes fs1.cluster_map (x - cluster_size)
            else if member (x / cluster_size) (3 ∷ 4 ∷ [])
            then 0
            else full_disk x))
delete_frees_example = delete_frees zeros file_request full_fs 2 (3 ∷ 4 ∷ []) file_request-CanDelete

read-delete_example :
    (fs1 : Fs) × (fs2 : Fs) × (delete zeros file_request full_fs ≡ some (pos 0, fs1))
    × (read counting file_request fs1 ≡ some (pos 3, fs2))
unfolding chars
read-delete_example =
    read-delete zeros file_request full_fs 2 (3 ∷ 4 ∷ []) file_request-CanDelete (omega arith) refl
      (omega arith) only_entry counting

write-Wrote_example : Wrote zeros file_request small_fs (write zeros file_request small_fs)
write-Wrote_example = write-Wrote zeros file_request small_fs (omega arith)

-- A folder `a` goes to cluster 3 and to entry 2 of the root.
abbrev folder_request : Request
folder_request = record file_request { buffer_size = 0 }

no_folder :
    (k : ℕ)
    → 1 ≤ k
    → k < entry_count
    → ¬ HasName folder_request (parent_table zeros folder_request small_fs) k
unfolding chars
no_folder k l h v = ground (arith, v.name 0, small_table (entry_at k))

cluster_3 : free_cluster small_map ≡ some 3
unfolding free_cluster
cluster_3 = refl

entry_2 : free_slot (parent_table zeros folder_request small_fs) ≡ some 2
unfolding free_slot read_clusters read_blocks memcpy
entry_2 = refl

folder_request-CanMake : CanMake zeros folder_request small_fs 3 2
folder_request-CanMake = record {
  folder = small_fs-IsFolder;
  no_bytes = refl;
  fresh = no_folder;
  place = cluster_3;
  place_inside = (omega arith, omega arith, refl);
  room = entry_2;
  room_inside = (omega arith, omega arith);
}

write-IsFolder_example :
    (fs1 : Fs) × (write zeros folder_request small_fs ≡ some (pos 0, fs1))
    × IsFolder fs1 3
    × IsFolder fs1 2
    × ((x : ℕ) → x ≢ 3 → fs1.cluster_map x ≡ small_map x)
    × ((m : Bytes) → entry_cluster (read_clusters fs1.storage m 0 2 1) 2 ≡ 3 % 256)
write-IsFolder_example = write-IsFolder zeros folder_request small_fs 3 2 folder_request-CanMake

create_fat32-IsFolder_example :
    IsFolder (create_fat32 counting small_fs) 2
    × ((x : ℕ)
        → 64 ≤ x
        → x < cluster_size
        → (create_fat32 counting small_fs).storage (cluster_size * 2 + x) ≡ counting x)
create_fat32-IsFolder_example = create_fat32-IsFolder counting small_fs

initialize-create_example :
    let mounted =
      initialize_filesystem_fat32 zeros
        (record (create_fat32 counting small_fs) { cluster_map = zeros }) in
    (mounted.storage ≡ (create_fat32 counting small_fs).storage)
    × ((i : ℕ) → i < cluster_map_size → mounted.cluster_map i ≡ fresh_entry i)
initialize-create_example = initialize-create counting small_fs zeros zeros
