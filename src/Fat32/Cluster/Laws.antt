-- ===== src/Fat32/Cluster/Laws.antt =====
-- Transfers of whole clusters, and the rounding of a size up to clusters.
use os_2024_operatingsalsa.Base.{
  ℕ, ◌+◌, ◌-◌, ◌*◌, ◌%◌, ◌^◌, ◌≤◌, ◌<◌, ◌≡◌, if◌then◌else◌, Bytes, arith,
}
use os_2024_operatingsalsa.StringOps.Memory.{in_range}
use os_2024_operatingsalsa.Disk.Laws.{read_blocks_lem, write_blocks_lem}
use os_2024_operatingsalsa.Fat32.Layout.{cluster_size}
use os_2024_operatingsalsa.Fat32.Cluster.{read_clusters, write_clusters, bytes_to_cluster}

-- Reading copies `count` clusters of the disk to `ptr`; 63 is the documented limit.
pub read_clusters_lem :
    (storage m : Bytes) (ptr n count x : ℕ)
    → count < 64
    → cluster_size * (n + count) ≤ 2 ^ 32
    → read_clusters storage m ptr n count x ≡ (
        if in_range ptr (cluster_size * count) x
        then storage (cluster_size * n + (x - ptr))
        else m x)
unfolding read_clusters
read_clusters_lem storage m ptr n count x h k =
    let e : n * 4 % 2 ^ 32 ≡ n * 4 = omega arith in
    let f : count % 2 ^ 8 * 4 % 2 ^ 32 % 2 ^ 8 ≡ count * 4 = omega arith in
    rw (e, f) (ground (arith, read_blocks_lem storage m ptr (n * 4) (count * 4) x))

pub write_clusters_lem :
    (storage m : Bytes) (ptr n count x : ℕ)
    → count < 64
    → cluster_size * (n + count) ≤ 2 ^ 32
    → write_clusters storage m ptr n count x ≡ (
        if in_range (cluster_size * n) (cluster_size * count) x
        then m (ptr + (x - cluster_size * n))
        else storage x)
unfolding write_clusters
write_clusters_lem storage m ptr n count x h k =
    let e : n * 4 % 2 ^ 32 ≡ n * 4 = omega arith in
    let f : count % 2 ^ 8 * 4 % 2 ^ 32 % 2 ^ 8 ≡ count * 4 = omega arith in
    rw (e, f) (ground (arith, write_blocks_lem storage m ptr (n * 4) (count * 4) x))

-- `bytes_to_cluster` is the least number of clusters that hold `size` bytes.
pub bytes_to_cluster_least :
    (size : ℕ)
    → size < 2 ^ 32
    → (size ≤ cluster_size * bytes_to_cluster size)
      × (cluster_size * bytes_to_cluster size < size + cluster_size)
unfolding bytes_to_cluster
bytes_to_cluster_least size h = ground arith
