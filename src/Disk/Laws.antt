-- ===== src/Disk/Laws.antt =====
-- What the two operations transfer, inside the 32-bit range of offsets.
use os_2024_operatingsalsa.Base.{
  ℕ, zero, suc, ◌+◌, ◌-◌, ◌*◌, ◌^◌, ◌≤◌, ◌≡◌, if◌then◌else◌, Bytes, arith,
}
use os_2024_operatingsalsa.StringOps.{memcpy}
use os_2024_operatingsalsa.StringOps.Memory.{in_range, memcpy_lem}
use os_2024_operatingsalsa.Disk.{
  block_size, block_offset, read_loop, read_blocks, write_loop, write_blocks,
}

read_loop_lem :
    (left i : ℕ) (image m : Bytes) (ptr lba x : ℕ)
    → block_size * (lba + (i + left)) ≤ 2 ^ 32
    → read_loop left i image m ptr lba x ≡ (
        if in_range (ptr + block_size * i) (block_size * left) x
        then image (block_size * lba + (x - ptr))
        else m x)
unfolding read_loop
read_loop_lem zero i image m ptr lba x h = ground arith
read_loop_lem (suc left) i image m ptr lba x h =
    let m' = memcpy m (ptr + block_size * i) image (block_offset lba i) block_size in
    ground (
      arith,
      read_loop_lem left (i + 1) image m' ptr lba x (omega arith),
      memcpy_lem m (ptr + block_size * i) image (block_offset lba i) block_size x,
    )

-- Reading copies `count` blocks of the image to `ptr`.
pub read_blocks_lem :
    (image m : Bytes) (ptr lba count x : ℕ)
    → block_size * (lba + count) ≤ 2 ^ 32
    → read_blocks image m ptr lba count x
      ≡ (if in_range ptr (block_size * count) x then image (block_size * lba + (x - ptr)) else m x)
unfolding read_blocks
read_blocks_lem image m ptr lba count x h =
    ground (arith, read_loop_lem count 0 image m ptr lba x (omega arith))

write_loop_lem :
    (left i : ℕ) (image m : Bytes) (ptr lba x : ℕ)
    → block_size * (lba + (i + left)) ≤ 2 ^ 32
    → write_loop left i image m ptr lba x ≡ (
        if in_range (block_size * (lba + i)) (block_size * left) x
        then m (ptr + (x - block_size * lba))
        else image x)
unfolding write_loop
write_loop_lem zero i image m ptr lba x h = ground arith
write_loop_lem (suc left) i image m ptr lba x h =
    let image' = memcpy image (block_offset lba i) m (ptr + block_size * i) block_size in
    ground (
      arith,
      write_loop_lem left (i + 1) image' m ptr lba x (omega arith),
      memcpy_lem image (block_offset lba i) m (ptr + block_size * i) block_size x,
    )

-- Writing replaces `count` blocks of the image by the bytes at `ptr`, and no other byte.
pub write_blocks_lem :
    (image m : Bytes) (ptr lba count x : ℕ)
    → block_size * (lba + count) ≤ 2 ^ 32
    → write_blocks image m ptr lba count x ≡ (
        if in_range (block_size * lba) (block_size * count) x
        then m (ptr + (x - block_size * lba))
        else image x)
unfolding write_blocks
write_blocks_lem image m ptr lba count x h =
    ground (arith, write_loop_lem count 0 image m ptr lba x (omega arith))
