-- ===== src/Paging/Invariant.antt =====
-- The invariant of the frames in src/paging.c, over every sequence of calls.
use os_2024_operatingsalsa.Base.{some, ℕ, Bool, ◌≡◌, true, count_if, not, ◌<◌, ◌≢◌}
use os_2024_operatingsalsa.Paging.{
  paging_allocate_user_page_frame, paging_free_user_page_frame, page_index,
  paging_create_new_page_directory, paging_free_page_directory, Paging, page_frame_max_count,
}

-- Entry `i` of the directory at `d` maps a frame for a user.
abbrev pub IsUser : Paging → ℕ → ℕ → Type 0
IsUser s d i = (s.table d i).flag.user_supervisor_bit ≡ true

abbrev pub frame_of : Paging → ℕ → ℕ → ℕ
frame_of s d i = (s.table d i).lower_address

-- The kernel's frame is taken, the count is the number of free frames, every mapped user frame is one
-- of the 32, taken and not the kernel's, and no frame is mapped at two places.
pub record IsConsistent (s : Paging) : Type 0 where
  pub kernel : s.page_frame_map 0 ≡ true
  pub count : s.free_page_frame_count ≡ count_if not s.page_frame_map page_frame_max_count
  pub inside : (d i : ℕ) → IsUser s d i → frame_of s d i < page_frame_max_count
  pub taken : (d i : ℕ) → IsUser s d i → s.page_frame_map (frame_of s d i) ≡ true
  pub not_kernel : (d i : ℕ) → IsUser s d i → frame_of s d i ≢ 0
  pub unique :
      (d i e j : ℕ)
      → IsUser s d i
      → IsUser s e j
      → frame_of s d i ≡ frame_of s e j
      → (d ≡ e) × (i ≡ j)

-- A call of one of the four operations that returns, in a state where a free concerns a user entry.
pub data Step (list_address : ℕ) (s : Paging) : Paging → Type 0 where
  allocate :
      (page_dir virtual_addr : ℕ) (r : Bool) (s1 : Paging)
      → paging_allocate_user_page_frame page_dir virtual_addr s ≡ some (r, s1)
      → Step list_address s s1
  free :
      (page_dir virtual_addr : ℕ) (r : Bool) (s1 : Paging)
      → IsUser s page_dir (page_index virtual_addr)
      → paging_free_user_page_frame page_dir virtual_addr s ≡ some (r, s1)
      → Step list_address s s1
  create : Step list_address s ((paging_create_new_page_directory list_address s).1)
  release :
      (page_dir : ℕ) → Step list_address s ((paging_free_page_directory list_address page_dir s).1)
