-- ===== src/Fat32/Layout.antt =====
-- src/header/filesystem/fat32.h: the constants, the packed structures and the driver state.
use os_2024_operatingsalsa.Base.{
  ℕ, ◌+◌, ◌-◌, ◌*◌, ◌^◌, ltb, if◌then◌else◌, Bytes, Array, byte_of, load16, load32, bit_or,
}

abbrev pub cluster_block_count : ℕ
cluster_block_count = 4

abbrev pub cluster_size : ℕ
cluster_size = 2048

abbrev pub cluster_map_size : ℕ
cluster_map_size = 512

abbrev pub cluster_0_value : ℕ
cluster_0_value = 0x0FFFFFF0

abbrev pub cluster_1_value : ℕ
cluster_1_value = 0x0FFFFFFF

abbrev pub end_of_file : ℕ
end_of_file = 0x0FFFFFFF

abbrev pub empty_entry : ℕ
empty_entry = 0

abbrev pub boot_sector : ℕ
boot_sector = 0

abbrev pub fat_cluster_number : ℕ
fat_cluster_number = 1

abbrev pub root_cluster_number : ℕ
root_cluster_number = 2

abbrev pub attr_subdirectory : ℕ
attr_subdirectory = 0b00010000

abbrev pub uattr_not_empty : ℕ
uattr_not_empty = 0b10101010

-- `CLUSTER_SIZE / sizeof(struct FAT32DirectoryEntry)` entries of 32 bytes.
abbrev pub entry_count : ℕ
entry_count = 64

abbrev pub entry_size : ℕ
entry_size = 32

-- Where entry `i` of a table and its fields start: `name` at 0, `ext` at 8.
abbrev pub entry_at : ℕ → ℕ
entry_at i = entry_size * i

abbrev pub ext_at : ℕ → ℕ
ext_at i = entry_size * i + 8

abbrev pub attribute : Bytes → ℕ → ℕ
attribute table i = table (entry_size * i + 11)

abbrev pub user_attribute : Bytes → ℕ → ℕ
user_attribute table i = table (entry_size * i + 12)

abbrev pub cluster_high : Bytes → ℕ → ℕ
cluster_high table i = load16 table (entry_size * i + 20)

abbrev pub cluster_low : Bytes → ℕ → ℕ
cluster_low table i = load16 table (entry_size * i + 26)

abbrev pub filesize : Bytes → ℕ → ℕ
filesize table i = load32 table (entry_size * i + 28)

-- `low | (high << 16)`, as the operations read the cluster of an entry.
unfoldable pub entry_cluster : Bytes → ℕ → ℕ
entry_cluster table i = bit_or (cluster_low table i) (cluster_high table i * 2 ^ 16)

-- `struct FAT32DriverRequest`, with its `name` (8 bytes) and `ext` (3 bytes) as arrays.
pub record Request : Type 0 where
  pub buf : ℕ
  pub name : Bytes
  pub ext : Bytes
  pub parent_cluster_number : ℕ
  pub buffer_size : ℕ

-- The request as the packed structure of 23 bytes that it is: `strlen` on `name` reads on into `ext`
-- and what follows when the name has no room for a terminator.
unfoldable pub packed : Request → Bytes
packed r x =
    if ltb x 4
    then byte_of r.buf x
    else if ltb x 12
    then r.name (x - 4)
    else if ltb x 15
    then r.ext (x - 12)
    else if ltb x 19
    then byte_of r.parent_cluster_number (x - 15)
    else if ltb x 23
    then byte_of r.buffer_size (x - 19)
    else 0

abbrev pub name_at : ℕ
name_at = 4

abbrev pub request_ext_at : ℕ
request_ext_at = 12

-- `fat32_driver_state`, with the disk and the memory that requests point into. `cluster_buf` is
-- never used by the source.
pub record Fs : Type 0 where
  pub cluster_map : Array ℕ
  pub dir_table_buf : Bytes
  pub storage : Bytes
  pub ram : Bytes
