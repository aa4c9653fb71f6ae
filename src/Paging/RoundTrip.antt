-- ===== src/Paging/RoundTrip.antt =====
-- An allocation that is freed again, in src/paging.c.
use mathlib.Core.Bool.{false≢true}
use os_2024_operatingsalsa.Base.{
  ℕ, ◌<◌, ◌≡◌, some, false, ◌^◌, true, ◌≢◌, store, u32, ◌⊎◌, ◌+◌, arith, lt→ltb, sym, ◌∙◌,
}
use os_2024_operatingsalsa.Paging.{
  paging_allocate_user_page_frame, paging_free_user_page_frame, map_frame, page_index, Paging,
  page_frame_max_count, store_entry, zero_entry,
}
use os_2024_operatingsalsa.Paging.Frames.{
  mapped_frame_lem, page_index-lt, map_frame-entry, map_frame-map, map_frame-count, map_frame-other,
  paging_allocate_user_page_frame-Allocated, Allocated, no_frame, frame,
}

-- What a free does at an entry with frame `frame`.
pub free_returns :
    (page_dir virtual_addr : ℕ) (s : Paging)
    → (s.table page_dir (page_index virtual_addr)).lower_address < page_frame_max_count
    → paging_free_user_page_frame page_dir virtual_addr s
      ≡ some (
        true,
        store_entry
            (record s {
              page_frame_map =
                  store s.page_frame_map
                    ((s.table page_dir (page_index virtual_addr)).lower_address)
                    false;
              free_page_frame_count = u32 (s.free_page_frame_count + 1);
            })
            page_dir
            (page_index virtual_addr)
            zero_entry,
      )
unfolding paging_free_user_page_frame
free_returns page_dir virtual_addr s h =
    let frame =
      mapped_frame_lem (s.table page_dir (page_index virtual_addr)) virtual_addr (omega arith) in
    let inside = lt→ltb _ _ (page_index-lt virtual_addr) in
    let known = lt→ltb _ _ h in rw (inside, frame) (rw known)

module _ (page_dir virtual_addr : ℕ) (s : Paging) (i : ℕ) (inside : i < page_frame_max_count)
    (is_free : s.page_frame_map i ≡ false) (counted : 0 < s.free_page_frame_count)
    (small : s.free_page_frame_count < 2 ^ 32) where
  -- The state after a free at the address.
  abbrev freed : Paging → Paging
  freed s1 =
      store_entry
        (record s1 {
          page_frame_map =
              store s1.page_frame_map ((s1.table page_dir (page_index virtual_addr)).lower_address)
                false;
          free_page_frame_count = u32 (s1.free_page_frame_count + 1);
        })
        page_dir (page_index virtual_addr) zero_entry

  module _ (j : ℕ) where
    abbrev taken : Paging
    taken = map_frame page_dir virtual_addr j s

    same_map :
        j < page_frame_max_count
        → s.page_frame_map j ≡ false
        → (k : ℕ) → (freed taken).page_frame_map k ≡ s.page_frame_map k
    same_map h z k =
        let entry = (map_frame-entry page_dir virtual_addr s j h).0 in
        rw entry (ground (arith, z, map_frame-map page_dir virtual_addr s j k))

    same_count : (freed taken).free_page_frame_count ≡ s.free_page_frame_count
    same_count = omega (arith, map_frame-count page_dir virtual_addr s j)

    same_entry : (freed taken).table page_dir (page_index virtual_addr) ≡ zero_entry
    same_entry = ground arith

    other :
        (d k : ℕ)
        → (d ≢ page_dir) ⊎ (k ≢ page_index virtual_addr)
        → (freed taken).table d k ≡ s.table d k
    other d k n = ground (arith, map_frame-other page_dir virtual_addr s j d k n)

  -- With a free frame and a count of free frames between 1 and 2^32 - 1, an allocation returns true,
  -- and a free of the same address right after it returns true as well: then the map of the frames
  -- and the count are what they were, the address has an entry of zeros, and no other entry of any
  -- directory has changed.
  pub free-allocate :
      (s1 : Paging) × (s2 : Paging) × (paging_allocate_user_page_frame page_dir virtual_addr s
        ≡ some (true, s1))
      × (paging_free_user_page_frame page_dir virtual_addr s1 ≡ some (true, s2))
      × ((k : ℕ) → s2.page_frame_map k ≡ s.page_frame_map k)
      × (s2.free_page_frame_count ≡ s.free_page_frame_count)
      × (s2.table page_dir (page_index virtual_addr) ≡ zero_entry)
      × ((d k : ℕ) → (d ≢ page_dir) ⊎ (k ≢ page_index virtual_addr) → s2.table d k ≡ s.table d k)
  free-allocate = go (paging_allocate_user_page_frame-Allocated page_dir virtual_addr s)
    where
      go :
          Allocated page_dir virtual_addr s
            (paging_allocate_user_page_frame page_dir virtual_addr s)
          → (s1 : Paging) × (s2 : Paging) × (paging_allocate_user_page_frame page_dir virtual_addr s
              ≡ some (true, s1))
            × (paging_free_user_page_frame page_dir virtual_addr s1 ≡ some (true, s2))
            × ((k : ℕ) → s2.page_frame_map k ≡ s.page_frame_map k)
            × (s2.free_page_frame_count ≡ s.free_page_frame_count)
            × (s2.table page_dir (page_index virtual_addr) ≡ zero_entry)
            × ((d k : ℕ)
                → (d ≢ page_dir) ⊎ (k ≢ page_index virtual_addr)
                → s2.table d k ≡ s.table d k)
      go (no_frame full e) = absurd (false≢true (sym is_free ∙ full i inside))
      go (frame j h z least e m) =
          let s1 = map_frame page_dir virtual_addr j s in
          let entry = (map_frame-entry page_dir virtual_addr s j h).0 in
          (
            s1,
            freed s1,
            e,
            free_returns page_dir virtual_addr s1 (rw entry h),
            λ k. same_map j h z k,
            same_count j,
            same_entry j,
            λ d k n. other j d k n,
          )
