-- ===== src/Tests/Fat32.antt =====
-- Applications of the theorems about src/filesystem/fat32.c to a small disk.
use os_2024_operatingsalsa.Base.{
  ℕ, zero, suc, ◌+◌, ◌%◌, ◌<◌, ◌≤◌, ◌≡◌, refl, Bytes, chars, [], ◌∷◌, ◌==◌, ltb, if◌then◌else◌, pos,
  some, arith, suc,
}
use os_2024_operatingsalsa.Fat32.Layout.{
  Fs, Request, cluster_size, end_of_file, attr_subdirectory, entry_at, entry_count,
}
use os_2024_operatingsalsa.Fat32.Cluster.{bytes_to_cluster}
use os_2024_operatingsalsa.Fat32.Cluster.Laws.{read_clusters_lem}
use os_2024_operatingsalsa.Fat32.Directory.Find.{HasName}
use os_2024_operatingsalsa.Fat32.Alloc.{first_fit}
use os_2024_operatingsalsa.Fat32.Alloc.FirstFit.{Fits, first_fit-Fits}
use os_2024_operatingsalsa.Fat32.Alloc.Parent.{IsFolder}
use os_2024_operatingsalsa.Fat32.Ops.{read, write}
use os_2024_operatingsalsa.Fat32.Ops.Stored.{CanStore, parent_table}
use os_2024_operatingsalsa.Fat32.Ops.RoundTrip.{read-write}

-- A root folder at cluster 2 with no file in it.
abbrev pub small_disk : Bytes
small_disk x = if x == 4107 then attr_subdirectory else if x == 4139 then attr_subdirectory else 0

abbrev pub small_map : ℕ → ℕ
small_map x = if ltb x 3 then end_of_file else 0

abbrev pub zeros : Bytes
zeros x = 0

abbrev pub counting : Bytes
counting x = x % 256

abbrev pub small_fs : Fs
small_fs = record {
  cluster_map = small_map;
  dir_table_buf = zeros;
  storage = small_disk;
  ram = counting;
}

-- A file `a` of 3000 bytes, which takes clusters 3 and 4.
abbrev pub file_request : Request
file_request = record {
  buf = 1000;
  name = chars (b'a' ∷ []);
  ext = zeros;
  parent_cluster_number = 2;
  buffer_size = 3000;
}

pub small_fs-IsFolder : IsFolder small_fs 2
small_fs-IsFolder = record {
  lower = omega arith;
  upper = omega arith;
  last = refl;
  self = refl;
  parent = refl;
}

pub small_table :
    (x : ℕ) → x < cluster_size → parent_table zeros file_request small_fs x ≡ small_disk (4096 + x)
small_table x h = ground (arith, read_clusters_lem small_disk zeros 0 2 1 x)

no_name :
    (k : ℕ) → k < entry_count → ¬ HasName file_request (parent_table zeros file_request small_fs) k
unfolding chars
no_name k h v = ground (arith, v.name 0, small_table (entry_at k))

file_fits : first_fit small_map (bytes_to_cluster 3000) ≡ pos 3
unfolding first_fit bytes_to_cluster
file_fits = refl

pub file_request-CanStore : CanStore zeros file_request small_fs 3
unfolding chars
file_request-CanStore = record {
  padded = record { name = λ j k p q e. padded_name j k p e; ext = λ j k p q e. refl };
  some_bytes = omega arith;
  small = omega arith;
  folder = small_fs-IsFolder;
  place = file_fits;
  fresh = no_name;
  room = 2;
  room_inside = (omega arith, omega arith);
  room_free = ground (arith, small_table 76);
}
  where
    padded_name : (j k : ℕ) → j ≤ k → file_request.name j ≡ 0 → file_request.name k ≡ 0
    padded_name zero k p e = absurd (omega arith)
    padded_name (suc j) zero p e = absurd (omega arith)
    padded_name (suc j) (suc k) p e = refl

read-write_example :
    (fs1 : Fs) × (fs2 : Fs) × (write zeros file_request small_fs ≡ some (pos 0, fs1))
    × (read counting (record file_request { buf = 9000 }) fs1 ≡ some (pos 0, fs2))
    × ((k : ℕ) → k < 3000 → fs2.ram (9000 + k) ≡ counting (1000 + k))
read-write_example =
    read-write zeros file_request small_fs 3 file_request-CanStore (omega arith) counting 9000

first_fit-Fits_example : Fits small_map 2 3 (first_fit small_map 2)
first_fit-Fits_example = first_fit-Fits small_map 2 (omega arith)
