-- ===== src/Paging.antt =====
-- src/paging.c and src/header/memory/paging.h. The page directories are a store over their addresses;
-- `list_address` is where the linker puts `page_directory_list`. `none` is an access outside of
-- `page_frame_map`.
mod Layout
pub mod Check
pub mod Frames
pub mod RoundTrip
pub mod Invariant
pub mod Preserve
pub mod Reach
pub mod Unmapped
pub mod Directories
pub use Layout.*
use os_2024_operatingsalsa.Base.{
  ◌>>=◌, ℕ, zero, suc, Array, u32, ◌+◌, bit_and, if◌then◌else◌, ◌==◌, Bool, false, store, bit_or,
  true, Option, ltb, ◌-◌, not, ◌*◌, ◌/◌, none, some, ◌^◌, u32_sub,
}

-- `((uint32_t) virtual_addr >> 22) & 0x3FF`.
unfoldable pub page_index : ℕ → ℕ
page_index virtual_addr = bit_and (virtual_addr / 2 ^ 22) 0x3FF

-- The directory at `page_dir` with a new entry at `i`.
abbrev pub store_entry : Paging → ℕ → ℕ → PageDirectoryEntry → Paging
store_entry s page_dir i entry = record s {
  table = store s.table page_dir (store (s.table page_dir) i entry);
}

-- The flush of the translation cache has no counterpart in the state.
unfoldable pub update_page_directory_entry : ℕ → ℕ → ℕ → PageDirectoryEntryFlag → Paging → Paging
unfolding page_index
update_page_directory_entry page_dir physical_addr virtual_addr flag s =
    let i = page_index virtual_addr in
    store_entry s page_dir i (record (s.table page_dir i) {
      flag = flag;
      lower_address = bit_and (physical_addr / 2 ^ 22) 0x3FF;
    })

-- The loop of `paging_allocate_check` with the frames that are left.
pub check_loop : ℕ → ℕ → Array Bool → ℕ → ℕ → Bool
check_loop zero idx map requested free_frame_total = false
check_loop (suc left) idx map requested free_frame_total =
    let after_free = check_loop left (idx + 1) map requested (free_frame_total + 1) in
    let after_used = check_loop left (idx + 1) map requested 0 in
    if not (map idx)
    then (if (free_frame_total + 1) == requested then true else after_free)
    else after_used

-- `(amount + PAGE_FRAME_SIZE - 1) / PAGE_FRAME_SIZE` on 32 bits.
abbrev pub requested_frames : ℕ → ℕ
requested_frames amount = u32 (amount + page_frame_size - 1) / page_frame_size

unfoldable pub paging_allocate_check : ℕ → Paging → Bool
unfolding check_loop
paging_allocate_check amount s =
    check_loop page_frame_max_count 0 s.page_frame_map (requested_frames amount) 0

-- `while (page_frame_map[i] && i < PAGE_FRAME_MAX_COUNT) i++`, which reads the map before the test.
pub frame_loop : ℕ → ℕ → Array Bool → Option ℕ
frame_loop zero i map = none
frame_loop (suc left) i map =
    let rest = frame_loop left (i + 1) map in if map i then rest else some i

abbrev pub user_flag : PageDirectoryEntryFlag
user_flag = record zero_flag {
  present_bit = true;
  write_bit = true;
  user_supervisor_bit = true;
  use_pagesize_4_mb = true;
}

abbrev pub kernel_flag : PageDirectoryEntryFlag
kernel_flag = record zero_flag { present_bit = true; write_bit = true; use_pagesize_4_mb = true }

-- Frame `i` is taken and mapped.
unfoldable pub map_frame : ℕ → ℕ → ℕ → Paging → Paging
unfolding update_page_directory_entry
map_frame page_dir virtual_addr i s =
    update_page_directory_entry page_dir (u32 (i * page_frame_size)) virtual_addr user_flag
      (record s {
        page_frame_map = store s.page_frame_map i true;
        free_page_frame_count = u32_sub s.free_page_frame_count 1;
      })

unfoldable pub paging_allocate_user_page_frame : ℕ → ℕ → Paging → Option (Bool × Paging)
unfolding paging_allocate_check frame_loop map_frame
paging_allocate_user_page_frame page_dir virtual_addr s =
    if not (paging_allocate_check page_frame_size s) then some (false, s) else do
      i ← frame_loop page_frame_max_count 0 s.page_frame_map
      some (true, map_frame page_dir virtual_addr i s)

-- `((entry->lower_address << 22) | (virtual_addr & 0x003FFFFF)) / PAGE_FRAME_SIZE`.
unfoldable pub mapped_frame : PageDirectoryEntry → ℕ → ℕ
mapped_frame entry virtual_addr =
    bit_or (bit_and virtual_addr 0x003FFFFF) (u32 (entry.lower_address * 2 ^ 22)) / page_frame_size

unfoldable pub paging_free_user_page_frame : ℕ → ℕ → Paging → Option (Bool × Paging)
unfolding page_index mapped_frame
paging_free_user_page_frame page_dir virtual_addr s =
    let i = page_index virtual_addr in
    let frame = mapped_frame (s.table page_dir i) virtual_addr in
    let freed = record s {
      page_frame_map = store s.page_frame_map frame false;
      free_page_frame_count = u32 (s.free_page_frame_count + 1);
    } in
    if not (ltb i page_entry_count)
    then some (false, s)
    else if not (ltb frame page_frame_max_count)
    then none
    else some (true, store_entry freed page_dir i zero_entry)

-- `&page_directory_list[i]`.
abbrev pub directory_at : ℕ → ℕ → ℕ
directory_at list_address i = list_address + 4096 * i

-- An empty directory with the entry of the kernel's upper half.
abbrev pub fresh_directory : PageDirectory
fresh_directory =
    store (λ _. zero_entry) 0x300 (record zero_entry { flag = kernel_flag; lower_address = 0 })

-- The loop of `paging_create_new_page_directory`; 0 is NULL.
pub create_loop : ℕ → ℕ → ℕ → Paging → ℕ × Paging
create_loop list_address zero i s = (0, s)
create_loop list_address (suc left) i s =
    let rest = create_loop list_address left (i + 1) s in
    if not (s.page_directory_used i)
    then (
      directory_at list_address i,
      record s {
        page_directory_used = store s.page_directory_used i true;
        table = store s.table (directory_at list_address i) fresh_directory;
      },
    )
    else rest

unfoldable pub paging_create_new_page_directory : ℕ → Paging → ℕ × Paging
unfolding create_loop
paging_create_new_page_directory list_address s =
    create_loop list_address paging_directory_table_max_count 0 s

-- The loop of `paging_free_page_directory`.
pub release_loop : ℕ → ℕ → ℕ → ℕ → Paging → Bool × Paging
release_loop list_address zero i page_dir s = (false, s)
release_loop list_address (suc left) i page_dir s =
    let rest = release_loop list_address left (i + 1) page_dir s in
    if directory_at list_address i == page_dir
    then (
      true,
      record s {
        page_directory_used = store s.page_directory_used i false;
        table = store s.table (directory_at list_address i) (λ _. zero_entry);
      },
    )
    else rest

unfoldable pub paging_free_page_directory : ℕ → ℕ → Paging → Bool × Paging
unfolding release_loop
paging_free_page_directory list_address page_dir s =
    release_loop list_address paging_directory_table_max_count 0 page_dir s

unfoldable pub paging_get_current_page_directory_addr : Paging → ℕ
paging_get_current_page_directory_addr s = u32 (s.cr3 + kernel_virtual_address_base)

unfoldable pub paging_use_page_directory : ℕ → Paging → Paging
paging_use_page_directory page_dir s =
    let physical =
      if ltb kernel_virtual_address_base page_dir
      then page_dir - kernel_virtual_address_base
      else page_dir in
    record s { cr3 = physical }

-- The state at boot: frame 0 belongs to the kernel, and no directory of the list is in use.
abbrev pub initial_paging : (ℕ → PageDirectory) → ℕ → Paging
initial_paging table cr3 = record {
  page_frame_map = λ i. i == 0;
  free_page_frame_count = 31;
  table = table;
  page_directory_used = λ _. false;
  cr3 = cr3;
}
