-- ===== src/Paging/Frames.antt =====
-- What `paging_allocate_user_page_frame` and `paging_free_user_page_frame` of src/paging.c do.
use os_2024_operatingsalsa.Base.{
  ap, eq→==, ne→==, refl, zero, suc, Bool-cases, inl, inr, some, none, ℕ, Array, ◌≡◌, ◌<◌, ◌+◌, ◌/◌,
  u32, arith, Option, ◌≤◌, ◌*◌, ◌^◌, ℕ_discrete, ◌%◌, sym, ◌∙◌, u32_sub, ◌≢◌, if◌then◌else◌, ◌==◌,
  ◌⊎◌,
}
use mathlib.Core.Bool.{false≢true, Bool, true, false}
use os_2024_operatingsalsa.Base.Bits.{bit_and-mask, bit_or-shift}
use os_2024_operatingsalsa.Paging.{
  paging_allocate_user_page_frame, map_frame, page_index, mapped_frame, frame_loop,
  update_page_directory_entry, PageDirectoryEntry, PageDirectoryEntryFlag, Paging, page_entry_count,
  page_frame_max_count, user_flag, paging_allocate_check, page_frame_size,
}
use os_2024_operatingsalsa.Paging.Check.{paging_allocate_check_iff}

pub page_index_lem : (virtual_addr : ℕ) → page_index virtual_addr ≡ virtual_addr / 2 ^ 22 % 1024
unfolding page_index
page_index_lem virtual_addr = bit_and-mask 10 (virtual_addr / 2 ^ 22)

pub page_index-lt : (virtual_addr : ℕ) → page_index virtual_addr < page_entry_count
page_index-lt virtual_addr = omega (arith, page_index_lem virtual_addr)

-- The frame that `paging_free_user_page_frame` computes is the one of the entry.
pub mapped_frame_lem :
    (entry : PageDirectoryEntry) (virtual_addr : ℕ)
    → entry.lower_address < 1024
    → mapped_frame entry virtual_addr ≡ entry.lower_address
unfolding mapped_frame
mapped_frame_lem entry virtual_addr h =
    let e : u32 (entry.lower_address * 2 ^ 22) ≡ entry.lower_address * 2 ^ 22 = omega arith in
    let low = bit_and-mask 22 virtual_addr in
    let sum = bit_or-shift 22 (virtual_addr % 2 ^ 22) entry.lower_address (omega arith) in
    rw (e, low, sum) (omega arith)

-- The lowest free frame from `lo` on, or none.
pub data FirstFree (map : Array Bool) (lo : ℕ) (o : Option ℕ) : Type 0 where
  free_at :
      (i : ℕ)
      → o ≡ some i
      → lo ≤ i
      → i < page_frame_max_count
      → map i ≡ false
      → ((k : ℕ) → lo ≤ k → k < i → map k ≡ true)
      → FirstFree map lo o
  all_taken :
      o ≡ none → ((k : ℕ) → lo ≤ k → k < page_frame_max_count → map k ≡ true) → FirstFree map lo o

module _ (map : Array Bool) where
  taken_from :
      (lo hi : ℕ)
      → map lo ≡ true
      → ((k : ℕ) → lo + 1 ≤ k → k < hi → map k ≡ true)
      → (k : ℕ) → lo ≤ k
      → k < hi
      → map k ≡ true
  taken_from lo hi u h k p q = elim (ℕ_discrete k lo) [
    | yes e ↦ rw e u
    | no ne ↦ h k (omega arith) q
  ]

  FirstFree-next :
      (lo : ℕ) (o : Option ℕ) → map lo ≡ true → FirstFree map (lo + 1) o → FirstFree map lo o
  FirstFree-next lo o u (free_at i e l h z t) = free_at i e (omega arith) h z (taken_from lo i u t)
  FirstFree-next lo o u (all_taken e t) = all_taken e (taken_from lo page_frame_max_count u t)

  frame_loop-FirstFree :
      (left i : ℕ) → i + left ≡ page_frame_max_count → FirstFree map i (frame_loop left i map)
  unfolding frame_loop
  frame_loop-FirstFree zero i e = all_taken refl (λ k p q. absurd (omega arith))
  frame_loop-FirstFree (suc left) i e = elim (Bool-cases (map i)) [
    | inl u ↦ rw u (FirstFree-next i _ u (frame_loop-FirstFree left (i + 1) (omega arith)))
    | inr z ↦ rw z (free_at i refl (omega arith) (omega arith) z (λ k p q. absurd (omega arith)))
  ]

-- `s1` is `s` with frame `i` taken and mapped at the address for a user: the directory has at the address's
-- index an entry of 4 MiB for that frame, present and writable. Nothing else has changed.
pub record IsMapped (page_dir virtual_addr i : ℕ) (s s1 : Paging) : Type 0 where
  pub taken : s1.page_frame_map i ≡ true
  pub others : (k : ℕ) → k ≢ i → s1.page_frame_map k ≡ s.page_frame_map k
  pub count : s1.free_page_frame_count ≡ u32_sub s.free_page_frame_count 1
  pub address : (s1.table page_dir (virtual_addr / 2 ^ 22 % 1024)).lower_address ≡ i
  pub present : (s1.table page_dir (virtual_addr / 2 ^ 22 % 1024)).flag.present_bit ≡ true
  pub writable : (s1.table page_dir (virtual_addr / 2 ^ 22 % 1024)).flag.write_bit ≡ true
  pub user : (s1.table page_dir (virtual_addr / 2 ^ 22 % 1024)).flag.user_supervisor_bit ≡ true
  pub large : (s1.table page_dir (virtual_addr / 2 ^ 22 % 1024)).flag.use_pagesize_4_mb ≡ true
  pub same_entries :
      (d k : ℕ) → (d ≢ page_dir) ⊎ (k ≢ virtual_addr / 2 ^ 22 % 1024) → s1.table d k ≡ s.table d k
  pub same_directories : s1.page_directory_used ≡ s.page_directory_used
  pub same_cr3 : s1.cr3 ≡ s.cr3

-- What an allocation does.
pub data Allocated (page_dir virtual_addr : ℕ) (s : Paging) (o : Option (Bool × Paging))
    : Type 0 where
  frame :
      (i : ℕ)
      → i < page_frame_max_count
      → s.page_frame_map i ≡ false
      → ((k : ℕ) → k < i → s.page_frame_map k ≡ true)
      → o ≡ some (true, map_frame page_dir virtual_addr i s)
      → IsMapped page_dir virtual_addr i s (map_frame page_dir virtual_addr i s)
      → Allocated page_dir virtual_addr s o
  no_frame :
      ((k : ℕ) → k < page_frame_max_count → s.page_frame_map k ≡ true)
      → o ≡ some (false, s)
      → Allocated page_dir virtual_addr s o

module _ (page_dir virtual_addr : ℕ) (s : Paging) where
  -- The state after frame `i` is mapped.
  pub map_frame-entry :
      (i : ℕ)
      → i < page_frame_max_count
      → (((map_frame page_dir virtual_addr i s).table page_dir
            (page_index virtual_addr)).lower_address
          ≡ i)
        × (((map_frame page_dir virtual_addr i s).table page_dir (page_index virtual_addr)).flag
            ≡ user_flag)
  unfolding map_frame update_page_directory_entry
  map_frame-entry i h =
      let address : u32 (i * page_frame_size) / 2 ^ 22 ≡ i = omega arith in
      (ground (arith, address, bit_and-mask 10 i), ground arith)

  module _ (j : ℕ) where
    pub map_frame-map :
        (k : ℕ)
        → (map_frame page_dir virtual_addr j s).page_frame_map k
          ≡ (if k == j then true else s.page_frame_map k)
    unfolding map_frame update_page_directory_entry
    map_frame-map k = refl

    pub map_frame-count :
        (map_frame page_dir virtual_addr j s).free_page_frame_count
        ≡ u32_sub s.free_page_frame_count 1
    unfolding map_frame update_page_directory_entry
    map_frame-count = refl

    pub map_frame-other :
        (d k : ℕ)
        → (d ≢ page_dir) ⊎ (k ≢ page_index virtual_addr)
        → (map_frame page_dir virtual_addr j s).table d k ≡ s.table d k
    unfolding map_frame update_page_directory_entry
    map_frame-other d k n = ground arith

    map_frame-kept :
        (map_frame page_dir virtual_addr j s).page_directory_used ≡ s.page_directory_used
    unfolding map_frame update_page_directory_entry
    map_frame-kept = refl

    map_frame-cr3 : (map_frame page_dir virtual_addr j s).cr3 ≡ s.cr3
    unfolding map_frame update_page_directory_entry
    map_frame-cr3 = refl

  map_frame-IsMapped :
      (i : ℕ)
      → i < page_frame_max_count
      → IsMapped page_dir virtual_addr i s (map_frame page_dir virtual_addr i s)
  map_frame-IsMapped i h =
      let index = page_index_lem virtual_addr in
      let (low, flag) = map_frame-entry i h in
      record {
        taken = map_frame-map i i ∙ rw (eq→== i i refl) refl;
        others = λ k n. map_frame-map i k ∙ rw (ne→== k i n) refl;
        count = map_frame-count i;
        address = rw index at low;
        present = ap (λ (f : PageDirectoryEntryFlag). f.present_bit) (rw index at flag);
        writable = ap (λ (f : PageDirectoryEntryFlag). f.write_bit) (rw index at flag);
        user = ap (λ (f : PageDirectoryEntryFlag). f.user_supervisor_bit) (rw index at flag);
        large = ap (λ (f : PageDirectoryEntryFlag). f.use_pagesize_4_mb) (rw index at flag);
        same_entries = λ d k n. map_frame-other i d k (rw index n);
        same_directories = map_frame-kept i;
        same_cr3 = map_frame-cr3 i;
      }

  check_one :
      (i : ℕ)
      → i < page_frame_max_count
      → s.page_frame_map i ≡ false
      → paging_allocate_check page_frame_size s ≡ true
  check_one i h z = (paging_allocate_check_iff page_frame_size s).1 (
    omega arith,
    record {
      start = i;
      lower = omega arith;
      fits = omega arith;
      free = λ k p q. ground (arith, z);
    },
  )

  check_none :
      ((k : ℕ) → k < page_frame_max_count → s.page_frame_map k ≡ true)
      → paging_allocate_check page_frame_size s ≡ false
  check_none h = elim (Bool-cases (paging_allocate_check page_frame_size s)) [
    | inr e ↦ e
    | inl e ↦
        let r = ((paging_allocate_check_iff page_frame_size s).0 e).1 in
        absurd (
          false≢true
            (sym (r.free r.start (omega arith) (omega arith)) ∙ h r.start (omega (arith, r.fits))))
  ]

  -- An allocation never reads outside of the map. It takes the lowest free frame, maps it at the
  -- address and returns true; where no frame is free it returns false and changes nothing.
  pub paging_allocate_user_page_frame-Allocated :
      Allocated page_dir virtual_addr s (paging_allocate_user_page_frame page_dir virtual_addr s)
  unfolding paging_allocate_user_page_frame
  paging_allocate_user_page_frame-Allocated =
      go (frame_loop-FirstFree s.page_frame_map 32 0 (omega arith))
    where
      go :
          FirstFree s.page_frame_map 0 (frame_loop 32 0 s.page_frame_map)
          → Allocated page_dir virtual_addr s
              (paging_allocate_user_page_frame page_dir virtual_addr s)
      go (free_at i e l h z t) =
          frame i h z (λ k p. t k (omega arith) p) (rw (check_one i h z, e))
            (map_frame-IsMapped i h)
      go (all_taken e t) =
          let full : (k : ℕ) → k < page_frame_max_count → s.page_frame_map k ≡ true =
            λ k p. t k (omega arith) p in
          no_frame full (rw (check_none full))
