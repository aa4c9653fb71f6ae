-- ===== src/Fat32/Alloc/Parent.antt =====
-- Which cluster numbers `is_valid_parent_cluster` accepts.
use os_2024_operatingsalsa.Base.{ℕ, ◌+◌, ◌*◌, ◌≤◌, ◌<◌, ◌≡◌, ◌↔◌, Bytes, true, arith}
use os_2024_operatingsalsa.Fat32.Layout.{
  Fs, cluster_size, cluster_map_size, end_of_file, root_cluster_number, attr_subdirectory,
}
use os_2024_operatingsalsa.Fat32.Cluster.{read_clusters}
use os_2024_operatingsalsa.Fat32.Cluster.Laws.{read_clusters_lem}
use os_2024_operatingsalsa.Fat32.Alloc.{is_valid_parent_cluster}

-- Cluster `n` is a chain of its own, and the first two entries of the table that it holds on the
-- disk are folders.
pub record IsFolder (fs : Fs) (n : ℕ) : Type 0 where
  pub lower : root_cluster_number ≤ n
  pub upper : n < cluster_map_size
  pub last : fs.cluster_map n ≡ end_of_file
  pub self : fs.storage (cluster_size * n + 11) ≡ attr_subdirectory
  pub parent : fs.storage (cluster_size * n + 43) ≡ attr_subdirectory

module _ (garbage : Bytes) (fs : Fs) (n : ℕ) where
  table_byte :
      (x : ℕ)
      → n < cluster_map_size
      → x < cluster_size
      → read_clusters fs.storage garbage 0 n 1 x ≡ fs.storage (cluster_size * n + x)
  table_byte x h k = ground (arith, read_clusters_lem fs.storage garbage 0 n 1 x)

  -- It accepts exactly the clusters of folders, whatever the stack holds.
  pub is_valid_parent_cluster_iff : (is_valid_parent_cluster garbage fs n ≡ true) ↔ IsFolder fs n
  unfolding is_valid_parent_cluster
  is_valid_parent_cluster_iff = (
    λ e. ground (arith, table_byte 11, table_byte 43),
    λ v. ground (arith, table_byte 11, table_byte 43),
  )
