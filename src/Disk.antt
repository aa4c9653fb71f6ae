-- ===== src/Disk.antt =====
-- The block device: `read_blocks` and `write_blocks` of src/external/external-inserter.c, with which
-- the file system is linked in the inserter. The disk is `image_storage`, a byte array; block
-- numbers are `uint32_t`, so the offset is computed modulo 2^32.
pub mod Laws
use os_2024_operatingsalsa.Base.{ℕ, zero, suc, ◌+◌, ◌*◌, Bytes, u32}
use os_2024_operatingsalsa.StringOps.{memcpy}

abbrev pub block_size : ℕ
block_size = 512

-- `image_storage + BLOCK_SIZE*(logical_block_address+i)`.
abbrev pub block_offset : ℕ → ℕ → ℕ
block_offset logical_block_address i = u32 (block_size * u32 (logical_block_address + i))

read_loop : ℕ → ℕ → Bytes → Bytes → ℕ → ℕ → Bytes
read_loop zero i image_storage m ptr lba = m
read_loop (suc left) i image_storage m ptr lba =
    read_loop left (i + 1) image_storage
      (memcpy m (ptr + block_size * i) image_storage (block_offset lba i) block_size) ptr lba

-- `m` is the memory that `ptr` points into.
unfoldable pub read_blocks : Bytes → Bytes → ℕ → ℕ → ℕ → Bytes
unfolding read_loop
read_blocks image_storage m ptr lba block_count = read_loop block_count 0 image_storage m ptr lba

write_loop : ℕ → ℕ → Bytes → Bytes → ℕ → ℕ → Bytes
write_loop zero i image_storage m ptr lba = image_storage
write_loop (suc left) i image_storage m ptr lba =
    write_loop left (i + 1)
      (memcpy image_storage (block_offset lba i) m (ptr + block_size * i) block_size) m ptr lba

unfoldable pub write_blocks : Bytes → Bytes → ℕ → ℕ → ℕ → Bytes
unfolding write_loop
write_blocks image_storage m ptr lba block_count = write_loop block_count 0 image_storage m ptr lba
