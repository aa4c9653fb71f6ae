-- ===== src/Paging/Unmapped.antt =====
-- What src/paging.c does where a free concerns an address that is not mapped.
use os_2024_operatingsalsa.Base.{zero, suc, some, ℕ, ◌≡◌, store, ap, arith, u32, ◌∙◌, ◌+◌}
use mathlib.Core.Bool.{false≢true, true, false}
use os_2024_operatingsalsa.Paging.{
  paging_allocate_user_page_frame, paging_free_user_page_frame, map_frame, page_index, Paging,
  zero_entry, store_entry, PageDirectoryEntry, PageDirectoryEntryFlag,
}
use os_2024_operatingsalsa.Paging.RoundTrip.{free_returns}
use os_2024_operatingsalsa.Paging.Frames.{
  frame, no_frame, map_frame-entry, paging_allocate_user_page_frame-Allocated,
}
use os_2024_operatingsalsa.Paging.Invariant.{frame_of, IsUser}

module _ (page_dir virtual_addr : ℕ) (s : Paging)
    (unmapped : s.table page_dir (page_index virtual_addr) ≡ zero_entry) where
  abbrev freed : Paging
  freed =
      store_entry
        (record s {
          page_frame_map = store s.page_frame_map 0 false;
          free_page_frame_count = u32 (s.free_page_frame_count + 1);
        })
        page_dir (page_index virtual_addr) zero_entry

  returns : paging_free_user_page_frame page_dir virtual_addr s ≡ some (true, freed)
  returns =
      let none_mapped = ap (λ (x : PageDirectoryEntry). x.lower_address) unmapped in
      free_returns page_dir virtual_addr s (omega (arith, none_mapped)) ∙ rw none_mapped

  -- A free of an address that is not mapped returns true all the same, and makes frame 0 of the
  -- kernel free: the next allocation, at any address of any directory, maps frame 0 for a user.
  pub allocate-free_unmapped :
      (other_dir other_addr : ℕ)
      → (s1 : Paging) × (s2 : Paging) × (paging_free_user_page_frame page_dir virtual_addr s
          ≡ some (true, s1))
        × (paging_allocate_user_page_frame other_dir other_addr s1 ≡ some (true, s2))
        × (frame_of s2 other_dir (page_index other_addr) ≡ 0)
        × IsUser s2 other_dir (page_index other_addr)
  allocate-free_unmapped other_dir other_addr =
      elim (paging_allocate_user_page_frame-Allocated other_dir other_addr freed) [
        | no_frame full e ↦ absurd (false≢true (full 0 (omega arith)))
        | frame zero h z least e m ↦
            let (low, flag) = map_frame-entry other_dir other_addr freed 0 h in
            (
              freed,
              map_frame other_dir other_addr 0 freed,
              returns,
              e,
              low,
              ap (λ (x : PageDirectoryEntryFlag). x.user_supervisor_bit) flag,
            )
        | frame (suc i) h z least e m ↦ absurd (false≢true (least 0 (omega arith)))
      ]
