-- ===== src/Fat32/Cluster.antt =====
-- `cluster_to_lba`, `write_clusters`, `read_clusters` and `bytes_to_cluster` of
-- src/filesystem/fat32.c.
pub mod Laws
use os_2024_operatingsalsa.Base.{ℕ, ◌+◌, ◌*◌, ◌/◌, ◌%◌, ◌==◌, if◌then◌else◌, Bytes, u8, u32}
use os_2024_operatingsalsa.Disk.{read_blocks, write_blocks}
use os_2024_operatingsalsa.Fat32.Layout.{cluster_size}

pub cluster_to_lba : ℕ → ℕ
cluster_to_lba cluster = u32 (cluster * 4)

-- `cluster_count` and the block count that it becomes are `uint8_t`.
unfoldable pub write_clusters : Bytes → Bytes → ℕ → ℕ → ℕ → Bytes
unfolding cluster_to_lba
write_clusters storage m ptr cluster_number cluster_count =
    write_blocks storage m ptr (cluster_to_lba cluster_number)
      (u8 (cluster_to_lba (u8 cluster_count)))

unfoldable pub read_clusters : Bytes → Bytes → ℕ → ℕ → ℕ → Bytes
unfolding cluster_to_lba
read_clusters storage m ptr cluster_number cluster_count =
    read_blocks storage m ptr (cluster_to_lba cluster_number)
      (u8 (cluster_to_lba (u8 cluster_count)))

unfoldable pub bytes_to_cluster : ℕ → ℕ
bytes_to_cluster filesize =
    if filesize % cluster_size == 0
    then filesize / cluster_size
    else u32 (filesize / cluster_size + 1)
