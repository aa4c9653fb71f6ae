-- ===== src/Paging/Layout.antt =====
-- The constants and structures of src/header/memory/paging.h, and the state of src/paging.c.
use os_2024_operatingsalsa.Base.{ℕ, Array, Bool, false}

abbrev pub kernel_virtual_address_base : ℕ
kernel_virtual_address_base = 0xC0000000

abbrev pub page_entry_count : ℕ
page_entry_count = 1024

abbrev pub page_frame_size : ℕ
page_frame_size = 4194304

-- `(SYSTEM_MEMORY_MB << 20) / PAGE_FRAME_SIZE`.
abbrev pub page_frame_max_count : ℕ
page_frame_max_count = 32

abbrev pub paging_directory_table_max_count : ℕ
paging_directory_table_max_count = 32

pub record PageDirectoryEntryFlag : Type 0 where
  pub present_bit : Bool
  pub write_bit : Bool
  pub user_supervisor_bit : Bool
  pub pwt_bit : Bool
  pub pcd_bit : Bool
  pub accessed_bit : Bool
  pub dirty_bit : Bool
  pub use_pagesize_4_mb : Bool

pub record PageDirectoryEntry : Type 0 where
  pub flag : PageDirectoryEntryFlag
  pub global_page : ℕ
  pub ignored : ℕ
  pub pat : ℕ
  pub physical_address : ℕ
  pub reserved_2 : ℕ
  pub lower_address : ℕ

abbrev pub zero_flag : PageDirectoryEntryFlag
zero_flag = record {
  present_bit = false;
  write_bit = false;
  user_supervisor_bit = false;
  pwt_bit = false;
  pcd_bit = false;
  accessed_bit = false;
  dirty_bit = false;
  use_pagesize_4_mb = false;
}

abbrev pub zero_entry : PageDirectoryEntry
zero_entry = record {
  flag = zero_flag;
  global_page = 0;
  ignored = 0;
  pat = 0;
  physical_address = 0;
  reserved_2 = 0;
  lower_address = 0;
}

abbrev pub PageDirectory : Type 0
PageDirectory = Array PageDirectoryEntry

-- `page_manager_state`, `page_directory_manager`, the directories in memory, and the register CR3.
pub record Paging : Type 0 where
  pub page_frame_map : Array Bool
  pub free_page_frame_count : ℕ
  pub table : ℕ → PageDirectory
  pub page_directory_used : Array Bool
  pub cr3 : ℕ
