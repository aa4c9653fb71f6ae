-- ===== src/Tests/Paging.antt =====
-- Applications of the theorems about src/paging.c.
use os_2024_operatingsalsa.Base.{refl, some, ℕ, true, ◌≡◌, ◌↔◌, ◌≢◌, ◌<◌, ◌⊎◌, arith}
use os_2024_operatingsalsa.Paging.Invariant.{allocate, create, IsConsistent, frame_of, IsUser}
use os_2024_operatingsalsa.Paging.Reach.{start, call, Reach, Reach-IsConsistent}
use os_2024_operatingsalsa.Paging.{
  paging_allocate_check, Paging, paging_allocate_user_page_frame, paging_create_new_page_directory,
  initial_paging, PageDirectory, map_frame, paging_free_user_page_frame, zero_entry, page_index,
  requested_frames,
}
use os_2024_operatingsalsa.Paging.Directories.{Created, paging_create_new_page_directory-Created}
use os_2024_operatingsalsa.Paging.Frames.{Allocated, paging_allocate_user_page_frame-Allocated}
use os_2024_operatingsalsa.Paging.Unmapped.{allocate-free_unmapped}
use os_2024_operatingsalsa.Paging.RoundTrip.{free-allocate}
use os_2024_operatingsalsa.Paging.Check.{FreeRun, paging_allocate_check_iff}

-- The directories at boot are empty, the list starts at 0xC0200000, and CR3 holds a kernel address.
abbrev pub no_tables : ℕ → PageDirectory
no_tables d i = zero_entry

abbrev pub boot : Paging
boot = initial_paging no_tables 0x101000

abbrev pub list_at : ℕ
list_at = 0xC0200000

paging_allocate_check_iff_example :
    (paging_allocate_check 5000000 boot ≡ true)
    ↔ ((0 < requested_frames 5000000) × FreeRun boot.page_frame_map (requested_frames 5000000) 0)
paging_allocate_check_iff_example = paging_allocate_check_iff 5000000 boot

paging_allocate_user_page_frame-Allocated_example :
    Allocated list_at 0x8048000 boot (paging_allocate_user_page_frame list_at 0x8048000 boot)
paging_allocate_user_page_frame-Allocated_example =
    paging_allocate_user_page_frame-Allocated list_at 0x8048000 boot

free-allocate_example :
    (s1 : Paging) × (s2 : Paging) × (paging_allocate_user_page_frame list_at 0x8048000 boot
      ≡ some (true, s1))
    × (paging_free_user_page_frame list_at 0x8048000 s1 ≡ some (true, s2))
    × ((k : ℕ) → s2.page_frame_map k ≡ boot.page_frame_map k)
    × (s2.free_page_frame_count ≡ boot.free_page_frame_count)
    × (s2.table list_at (page_index 0x8048000) ≡ zero_entry)
    × ((d k : ℕ) → (d ≢ list_at) ⊎ (k ≢ page_index 0x8048000) → s2.table d k ≡ boot.table d k)
free-allocate_example =
    free-allocate list_at 0x8048000 boot 5 (omega arith) refl (omega arith) (omega arith)

paging_create_new_page_directory-Created_example :
    Created list_at boot 0 (paging_create_new_page_directory list_at boot)
paging_create_new_page_directory-Created_example =
    paging_create_new_page_directory-Created list_at boot

-- A directory is created, and a frame is mapped in it.
abbrev with_directory : Paging
with_directory = (paging_create_new_page_directory list_at boot).1

abbrev with_frame : Paging
with_frame = map_frame list_at 0x8048000 1 with_directory

allocated :
    paging_allocate_user_page_frame list_at 0x8048000 with_directory ≡ some (true, with_frame)
unfolding paging_allocate_user_page_frame paging_allocate_check paging_create_new_page_directory
allocated = refl

with_frame-Reach : Reach list_at boot with_frame
with_frame-Reach =
    call with_directory with_frame (call boot with_directory start create)
      (allocate list_at 0x8048000 true with_frame allocated)

Reach-IsConsistent_example : IsConsistent with_frame
Reach-IsConsistent_example =
    Reach-IsConsistent list_at no_tables 0x101000 (λ d i. refl) with_frame with_frame-Reach

allocate-free_unmapped_example :
    (s1 : Paging) × (s2 : Paging) × (paging_free_user_page_frame list_at 0x8048000 boot
      ≡ some (true, s1))
    × (paging_allocate_user_page_frame list_at 0x400000 s1 ≡ some (true, s2))
    × (frame_of s2 list_at (page_index 0x400000) ≡ 0)
    × IsUser s2 list_at (page_index 0x400000)
allocate-free_unmapped_example = allocate-free_unmapped list_at 0x8048000 boot refl list_at 0x400000
