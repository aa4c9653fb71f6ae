-- ===== src/Fat32/Ops/StoreFile.antt =====
-- The state that `write` leaves after it stored a file: the table of clusters and each byte of the
-- disk.
use os_2024_operatingsalsa.Base.{
  ℕ, ◌+◌, ◌-◌, ◌*◌, ◌≤◌, ◌<◌, ◌≡◌, Bytes, words_bytes, if◌then◌else◌, arith,
}
use os_2024_operatingsalsa.StringOps.Memory.{in_range}
use os_2024_operatingsalsa.Fat32.Layout.{
  Fs, Request, packed, name_at, request_ext_at, cluster_size, cluster_map_size, uattr_not_empty,
}
use os_2024_operatingsalsa.Fat32.Cluster.{write_clusters, bytes_to_cluster}
use os_2024_operatingsalsa.Fat32.Cluster.Laws.{write_clusters_lem}
use os_2024_operatingsalsa.Fat32.Directory.{insert_directory}
use os_2024_operatingsalsa.Fat32.Ops.{store_file, write_chain}
use os_2024_operatingsalsa.Fat32.Ops.Chain.{
  link, write_chain-same, write_chain-map, write_chain-storage,
}

-- The parent's table with the entry of a file.
abbrev pub file_table : Request → Bytes → ℕ → ℕ → Bytes
file_table r table c i =
    insert_directory table i (packed r) name_at (packed r) request_ext_at 0 uattr_not_empty c
      r.buffer_size

module _ (r : Request) (table : Bytes) (c i : ℕ) (fs : Fs)
    (fits : c + bytes_to_cluster r.buffer_size ≤ cluster_map_size) where
  abbrev n : ℕ
  n = bytes_to_cluster r.buffer_size

  abbrev start : Fs
  start = record fs {
    storage = write_clusters fs.storage (file_table r table c i) 0 r.parent_cluster_number 1;
  }

  abbrev chained : Fs
  chained = write_chain n 0 c n r.buf start

  pub store_file-same :
      ((store_file r table c i fs).ram ≡ fs.ram)
      × ((store_file r table c i fs).dir_table_buf ≡ fs.dir_table_buf)
  unfolding store_file
  store_file-same = write_chain-same c n r.buf fits n 0 start

  pub store_file-map :
      (x : ℕ)
      → (store_file r table c i fs).cluster_map x
        ≡ (if in_range c n x then link c n x else fs.cluster_map x)
  unfolding store_file
  store_file-map x = ground (arith, write_chain-map c n r.buf fits n 0 start x)

  -- Cluster 1 holds the table of clusters, the run the file's bytes, and the parent its new table.
  pub store_file-storage :
      (x : ℕ)
      → r.parent_cluster_number < cluster_map_size
      → (store_file r table c i fs).storage x ≡ (
          if in_range cluster_size cluster_size x
          then words_bytes (store_file r table c i fs).cluster_map (x - cluster_size)
          else if in_range (cluster_size * c) (cluster_size * n) x
          then fs.ram (r.buf + (x - cluster_size * c))
          else if in_range (cluster_size * r.parent_cluster_number) cluster_size x
          then file_table r table c i (x - cluster_size * r.parent_cluster_number)
          else fs.storage x)
  unfolding store_file
  store_file-storage x h = ground (
    arith,
    write_clusters_lem chained.storage (words_bytes chained.cluster_map) 0 1 1 x,
    write_chain-storage c n r.buf fits n 0 start x,
    write_clusters_lem fs.storage (file_table r table c i) 0 r.parent_cluster_number 1 x,
  )
