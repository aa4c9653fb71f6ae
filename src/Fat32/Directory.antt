-- ===== src/Fat32/Directory.antt =====
-- `insert_directory` and the scans of a directory table in src/filesystem/fat32.c.
pub mod Entry
pub mod Find
pub mod Named
pub mod Same
use os_2024_operatingsalsa.Base.{
  ℕ, zero, suc, ◌+◌, ◌/◌, ◌^◌, ◌==◌, if◌then◌else◌, ltb, Bytes, u8, u16, u32, store, store16,
  store32, bit_and, Bool, true, false, ◌&&◌, Option, none, some, is_zero,
}
use os_2024_operatingsalsa.StringOps.{memset, memcpy, memcmp, strlen}
use os_2024_operatingsalsa.Fat32.Layout.{
  Request, packed, name_at, request_ext_at, entry_at, ext_at, entry_count, user_attribute,
  uattr_not_empty,
}

-- The memory calls of `insert_directory`. `name` and `ext` are pointers into the arrays that stand
-- before them. Clearing 8 bytes from `ext` on reaches into the times, and the copies may run over
-- their fields.
insert_names : Bytes → ℕ → Bytes → ℕ → Bytes → ℕ → Bytes
insert_names table i names name exts ext =
    let t1 = memset table (entry_at i) 0 8 in
    let t2 = memset t1 (ext_at i) 0 8 in
    let t3 = memcpy t2 (entry_at i) names name (strlen names name) in
    memcpy t3 (ext_at i) exts ext (strlen exts ext)

-- The parameter `cluster_number` is a `uint8_t`.
unfoldable pub insert_directory : Bytes → ℕ → Bytes → ℕ → Bytes → ℕ → ℕ → ℕ → ℕ → ℕ → Bytes
unfolding insert_names
insert_directory table i names name exts ext attribute user_attribute cluster_number filesize =
    let high_bits = u16 (bit_and (u8 cluster_number / 2 ^ 16) 0xFFFF) in
    let low_bits = u16 (bit_and (u8 cluster_number) 0xFFFF) in
    let t4 = insert_names table i names name exts ext in
    let t5 = store t4 (entry_at i + 11) (u8 attribute) in
    let t6 = store t5 (entry_at i + 12) (u8 user_attribute) in
    let t7 = store16 t6 (entry_at i + 20) high_bits in
    let t8 = store16 t7 (entry_at i + 26) low_bits in store32 t8 (entry_at i + 28) (u32 filesize)

-- `memcmp(request.name, table[i].name, 8) == 0 && memcmp(request.ext, table[i].ext, 3) == 0`.
unfoldable pub entry_matches : Request → Bytes → ℕ → Bool
entry_matches request table i =
    is_zero (memcmp (packed request) name_at table (entry_at i) 8)
    && is_zero (memcmp (packed request) request_ext_at table (ext_at i) 3)

-- The loop `for (i = first; i < 64; i++)` up to its first match; `none` if it runs out.
pub find_loop : ℕ → ℕ → Request → Bytes → Option ℕ
find_loop zero i request table = none
find_loop (suc left) i request table =
    let rest = find_loop left (i + 1) request table in
    if entry_matches request table i then some i else rest

-- The loops of `read`, `read_directory` and `delete` start at 0.
unfoldable pub find_entry : Request → Bytes → Option ℕ
unfolding find_loop entry_matches
find_entry request table = find_loop entry_count 0 request table

-- The loop of `write` starts at 1.
unfoldable pub find_duplicate : Request → Bytes → Option ℕ
unfolding find_loop entry_matches
find_duplicate request table = find_loop 63 1 request table

-- `i = 2; while (table[i].user_attribute == UATTR_NOT_EMPTY) i++`, with the entries that are left in
-- the table; past the last one the source reads outside of it, which is `none`.
pub slot_loop : ℕ → ℕ → Bytes → Option ℕ
slot_loop zero i table = none
slot_loop (suc left) i table =
    let rest = slot_loop left (i + 1) table in
    if user_attribute table i == uattr_not_empty then rest else some i

unfoldable pub free_slot : Bytes → Option ℕ
unfolding slot_loop
free_slot table = slot_loop 62 2 table

-- `folder_not_empty`, on the table that it reads: an entry from 2 on is in use.
not_empty_loop : ℕ → ℕ → Bytes → Bool
not_empty_loop zero i table = false
not_empty_loop (suc left) i table =
    let rest = not_empty_loop left (i + 1) table in
    if user_attribute table i == uattr_not_empty then true else rest

unfoldable pub table_not_empty : Bytes → Bool
unfolding not_empty_loop
table_not_empty table = not_empty_loop 62 2 table
