-- ===== src/Fat32/Ops/Written.antt =====
-- What a file or a folder that `write` stored looks like in the table of clusters and on the disk.
use os_2024_operatingsalsa.Base.{
  ℕ, ◌+◌, ◌-◌, ◌*◌, ◌%◌, ◌≤◌, ◌<◌, ◌≡◌, ◌∙◌, ◌⊎◌, inl, inr, Bytes, words_bytes, if◌then◌else◌, ◌==◌,
  arith, ◌^◌, dec_lt, dec_le,
}
use os_2024_operatingsalsa.StringOps.Memory.{in_range}
use os_2024_operatingsalsa.Fat32.Layout.{
  Fs, Request, packed, name_at, request_ext_at, cluster_size, uattr_not_empty, end_of_file,
  entry_at, entry_count, entry_cluster, filesize,
}
use os_2024_operatingsalsa.Fat32.Cluster.{bytes_to_cluster}
use os_2024_operatingsalsa.Fat32.Cluster.Laws.{read_clusters_lem, bytes_to_cluster_least}
use os_2024_operatingsalsa.Fat32.Directory.Entry.{
  insert_directory_attributes, insert_directory_cluster, insert_directory_size,
  insert_directory_other,
}
use os_2024_operatingsalsa.Fat32.Directory.Named.{packed-name-IsString, packed-ext-IsString}
use os_2024_operatingsalsa.Fat32.Directory.Same.{entry_cluster-same, filesize-same}
use os_2024_operatingsalsa.Fat32.Alloc.Parent.{IsFolder}
use os_2024_operatingsalsa.Fat32.Alloc.FirstFit.{IsRun}
use os_2024_operatingsalsa.Fat32.Cluster.{read_clusters}
use os_2024_operatingsalsa.Fat32.Ops.{store_file, store_folder}
use os_2024_operatingsalsa.Fat32.Ops.Folder.{
  CanMake, new-IsFolder, old-IsFolder, after_map, after_storage, recorded,
}
use os_2024_operatingsalsa.Fat32.Ops.StoreFile.{file_table, store_file-map, store_file-storage}
use os_2024_operatingsalsa.Fat32.Ops.Stored.{parent_table}

-- The bytes of a cluster on the disk.
abbrev pub cluster_of : Fs → ℕ → Bytes
cluster_of fs n x = fs.storage (cluster_size * n + x)

-- `fs1` is `fs` with the file of the request in a chain of clusters from `c` on and an entry at `i` of the parent,
-- which records the first cluster modulo 256. The table of clusters is on the disk, and the
-- other entries of the parent are as before.
pub record IsStoredFile (r : Request) (fs fs1 : Fs) (c i : ℕ) : Type 0 where
  pub links :
      (x : ℕ)
      → fs1.cluster_map x ≡ (
          if in_range c (bytes_to_cluster r.buffer_size) x
          then (if x == (c + bytes_to_cluster r.buffer_size - 1) then end_of_file else x + 1)
          else fs.cluster_map x)
  pub on_disk : (x : ℕ) → x < cluster_size → cluster_of fs1 1 x ≡ words_bytes fs1.cluster_map x
  pub bytes : (k : ℕ) → k < r.buffer_size → cluster_of fs1 c k ≡ fs.ram (r.buf + k)
  pub plain : cluster_of fs1 r.parent_cluster_number (32 * i + 11) ≡ 0
  pub used : cluster_of fs1 r.parent_cluster_number (32 * i + 12) ≡ uattr_not_empty
  pub first : entry_cluster (cluster_of fs1 r.parent_cluster_number) i ≡ c % 256
  pub size : filesize (cluster_of fs1 r.parent_cluster_number) i ≡ r.buffer_size
  pub others :
      (x : ℕ)
      → x < cluster_size
      → (x < entry_at i) ⊎ (entry_at i + 32 ≤ x)
      → cluster_of fs1 r.parent_cluster_number x ≡ cluster_of fs r.parent_cluster_number x

module _ (g : Bytes) (r : Request) (fs : Fs) (folder : IsFolder fs r.parent_cluster_number)
    (some_bytes : 0 < r.buffer_size) (small : r.buffer_size < 2 ^ 32) (c i : ℕ) (lower : 3 ≤ c)
    (run : IsRun fs.cluster_map (bytes_to_cluster r.buffer_size) c) (inside : i < entry_count) where
  abbrev n : ℕ
  n = bytes_to_cluster r.buffer_size

  abbrev p : ℕ
  p = r.parent_cluster_number

  abbrev t : Bytes
  t = parent_table g r fs

  abbrev after : Fs
  after = store_file r t c i fs

  -- The parent is no cluster of the run.
  outside : (p < c) ⊎ (c + n ≤ p)
  outside = elim (dec_lt p c) [
    | yes h ↦ inl h
    | no h ↦ elim (dec_le (c + n) p) [
      | yes k ↦ inr k
      | no k ↦ absurd (omega (arith, run.empty p (omega arith) (omega arith), folder.last))
    ]
  ]

  parent_byte : (x : ℕ) → x < cluster_size → cluster_of after p x ≡ file_table r t c i x
  parent_byte x h = ground (
    arith,
    outside,
    folder.lower,
    store_file-storage r t c i fs run.fits (cluster_size * p + x) folder.upper,
  )

  table_byte : (x : ℕ) → x < cluster_size → t x ≡ cluster_of fs p x
  table_byte x h = ground (arith, folder.upper, read_clusters_lem fs.storage g 0 p 1 x)

  pub store_file-IsStoredFile : IsStoredFile r fs after c i
  store_file-IsStoredFile =
      let a = (packed-name-IsString r folder.upper).1 in
      let b = (packed-ext-IsString r folder.upper).1 in
      let attributes =
        insert_directory_attributes t i (packed r) name_at (packed r) request_ext_at a b 0
          uattr_not_empty c r.buffer_size in
      record {
        links = λ x. store_file-map r t c i fs run.fits x;
        on_disk = λ x h.
            ground
              (arith, store_file-storage r t c i fs run.fits (cluster_size * 1 + x) folder.upper);
        bytes = λ k h.
            let enough = (bytes_to_cluster_least r.buffer_size small).0 in
            ground (
              arith,
              enough,
              store_file-storage r t c i fs run.fits (cluster_size * c + k) folder.upper,
            );
        plain = parent_byte (32 * i + 11) (omega arith) ∙ attributes.0;
        used = parent_byte (32 * i + 12) (omega arith) ∙ attributes.1;
        first =
            entry_cluster-same (cluster_of after p) (file_table r t c i) parent_byte i inside
            ∙ insert_directory_cluster t i (packed r) name_at (packed r) request_ext_at a b 0
                uattr_not_empty c r.buffer_size;
        size =
            filesize-same (cluster_of after p) (file_table r t c i) parent_byte i inside
            ∙ insert_directory_size t i (packed r) name_at (packed r) request_ext_at a b 0
                uattr_not_empty c r.buffer_size
            ∙ omega (arith, small);
        others = λ x h q.
            parent_byte x h
            ∙ insert_directory_other t i (packed r) name_at (packed r) request_ext_at a b 0
                uattr_not_empty c r.buffer_size x q
            ∙ table_byte x h;
      }

-- `fs1` is `fs` with a folder in cluster `c`, and an entry at `i` of the parent that records it modulo 256.
pub record IsMadeFolder (r : Request) (fs fs1 : Fs) (c i : ℕ) : Type 0 where
  pub new : IsFolder fs1 c
  pub old : IsFolder fs1 r.parent_cluster_number
  pub map : (x : ℕ) → fs1.cluster_map x ≡ (if x == c then end_of_file else fs.cluster_map x)
  pub on_disk : (x : ℕ) → x < cluster_size → cluster_of fs1 1 x ≡ words_bytes fs1.cluster_map x
  pub first : entry_cluster (cluster_of fs1 r.parent_cluster_number) i ≡ c % 256

module _ (g : Bytes) (r : Request) (fs : Fs) (c i : ℕ) (can : CanMake g r fs c i) where
  abbrev made : Fs
  made = store_folder g r (parent_table g r fs) c i fs

  pub store_folder-IsMadeFolder : IsMadeFolder r fs made c i
  store_folder-IsMadeFolder = record {
    new = new-IsFolder g r fs c i can;
    old = old-IsFolder g r fs c i can;
    map = after_map g r fs c i can;
    on_disk = λ x h. ground (arith, after_storage g r fs c i can (cluster_size * 1 + x));
    first =
        entry_cluster-same (cluster_of made r.parent_cluster_number)
          (read_clusters made.storage g 0 r.parent_cluster_number 1) same i can.room_inside.1
        ∙ recorded g r fs c i can g;
  }
    where
      same :
          (x : ℕ)
          → x < cluster_size
          → cluster_of made r.parent_cluster_number x
            ≡ read_clusters made.storage g 0 r.parent_cluster_number 1 x
      same x h =
          ground (
            arith,
            can.folder.upper,
            read_clusters_lem made.storage g 0 r.parent_cluster_number 1 x,
          )
