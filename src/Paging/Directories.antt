-- ===== src/Paging/Directories.antt =====
-- What `paging_create_new_page_directory` and `paging_free_page_directory` of src/paging.c do.
use os_2024_operatingsalsa.Base.{
  refl, zero, suc, Bool-cases, inl, inr, ℕ, ◌≡◌, arith, ◌<◌, ◌+◌, store, ◌≤◌, ℕ_discrete, ◌≢◌,
  ne→==, eq→==, ◌*◌,
}
use mathlib.Core.Bool.{false, true}
use os_2024_operatingsalsa.Paging.{
  create_loop, release_loop, paging_create_new_page_directory, paging_free_page_directory, Paging,
  paging_directory_table_max_count, PageDirectoryEntry, PageDirectory, directory_at, zero_entry,
  fresh_directory,
}

-- The state with directory `i` of the list set up for a new owner, or given back.
abbrev pub take_directory : ℕ → ℕ → Paging → Paging
take_directory list_address i s = record s {
  page_directory_used = store s.page_directory_used i true;
  table = store s.table (directory_at list_address i) fresh_directory;
}

abbrev pub release_directory : ℕ → ℕ → Paging → Paging
release_directory list_address i s = record s {
  page_directory_used = store s.page_directory_used i false;
  table = store s.table (directory_at list_address i) (λ _. zero_entry);
}

-- An entry with nothing in it.
pub record IsEmpty (e : PageDirectoryEntry) : Type 0 where
  pub present : e.flag.present_bit ≡ false
  pub writable : e.flag.write_bit ≡ false
  pub user : e.flag.user_supervisor_bit ≡ false
  pub through : e.flag.pwt_bit ≡ false
  pub uncached : e.flag.pcd_bit ≡ false
  pub accessed : e.flag.accessed_bit ≡ false
  pub dirty : e.flag.dirty_bit ≡ false
  pub large : e.flag.use_pagesize_4_mb ≡ false
  pub global : e.global_page ≡ 0
  pub free : e.ignored ≡ 0
  pub attribute : e.pat ≡ 0
  pub upper : e.physical_address ≡ 0
  pub reserved : e.reserved_2 ≡ 0
  pub lower : e.lower_address ≡ 0

-- Entry 0x300 maps the first 4 MiB of memory, present and writable, for the kernel only, and all other entries are empty.
pub record IsKernelOnly (d : PageDirectory) : Type 0 where
  pub address : (d 0x300).lower_address ≡ 0
  pub present : (d 0x300).flag.present_bit ≡ true
  pub writable : (d 0x300).flag.write_bit ≡ true
  pub kernel : (d 0x300).flag.user_supervisor_bit ≡ false
  pub large : (d 0x300).flag.use_pagesize_4_mb ≡ true
  pub others : (x : ℕ) → x ≢ 0x300 → IsEmpty (d x)

-- `s1` is `s` with directory `i` of the list in use and set up. Nothing else has changed.
pub record IsTaken (list_address i : ℕ) (s s1 : Paging) : Type 0 where
  pub used : s1.page_directory_used i ≡ true
  pub others : (k : ℕ) → k ≢ i → s1.page_directory_used k ≡ s.page_directory_used k
  pub contents : IsKernelOnly (s1.table (list_address + 4096 * i))
  pub same_tables : (d : ℕ) → d ≢ list_address + 4096 * i → s1.table d ≡ s.table d
  pub same_frames : s1.page_frame_map ≡ s.page_frame_map
  pub same_count : s1.free_page_frame_count ≡ s.free_page_frame_count
  pub same_cr3 : s1.cr3 ≡ s.cr3

-- What a creation does.
pub data Created (list_address : ℕ) (s : Paging) (lo : ℕ) (o : ℕ × Paging) : Type 0 where
  directory :
      (i : ℕ)
      → lo ≤ i
      → i < paging_directory_table_max_count
      → s.page_directory_used i ≡ false
      → ((k : ℕ) → lo ≤ k → k < i → s.page_directory_used k ≡ true)
      → o ≡ (directory_at list_address i, take_directory list_address i s)
      → IsTaken list_address i s (take_directory list_address i s)
      → Created list_address s lo o
  no_directory :
      ((k : ℕ) → lo ≤ k → k < paging_directory_table_max_count → s.page_directory_used k ≡ true)
      → o ≡ (0, s)
      → Created list_address s lo o

zero_entry-IsEmpty : IsEmpty zero_entry
zero_entry-IsEmpty = record {
  present = refl;
  writable = refl;
  user = refl;
  through = refl;
  uncached = refl;
  accessed = refl;
  dirty = refl;
  large = refl;
  global = refl;
  free = refl;
  attribute = refl;
  upper = refl;
  reserved = refl;
  lower = refl;
}

fresh_directory-IsKernelOnly : IsKernelOnly fresh_directory
fresh_directory-IsKernelOnly = record {
  address = refl;
  present = refl;
  writable = refl;
  kernel = refl;
  large = refl;
  others = λ x n. rw (ne→== x 0x300 n) zero_entry-IsEmpty;
}

module _ (list_address : ℕ) (s : Paging) where
  take_directory-IsTaken : (i : ℕ) → IsTaken list_address i s (take_directory list_address i s)
  take_directory-IsTaken i = record {
    used = rw (eq→== i i refl) refl;
    others = λ k n. rw (ne→== k i n) refl;
    contents =
        let at = directory_at list_address i in rw (eq→== at at refl) fresh_directory-IsKernelOnly;
    same_tables = λ d n. rw (ne→== d (directory_at list_address i) n) refl;
    same_frames = refl;
    same_count = refl;
    same_cr3 = refl;
  }

  used_from :
      (lo hi : ℕ)
      → s.page_directory_used lo ≡ true
      → ((k : ℕ) → lo + 1 ≤ k → k < hi → s.page_directory_used k ≡ true)
      → (k : ℕ) → lo ≤ k
      → k < hi
      → s.page_directory_used k ≡ true
  used_from lo hi u h k p q = elim (ℕ_discrete k lo) [
    | yes e ↦ rw e u
    | no ne ↦ h k (omega arith) q
  ]

  Created-next :
      (lo : ℕ) (o : ℕ × Paging)
      → s.page_directory_used lo ≡ true
      → Created list_address s (lo + 1) o
      → Created list_address s lo o
  Created-next lo o u (directory i l h z t e new) =
      directory i (omega arith) h z (used_from lo i u t) e new
  Created-next lo o u (no_directory t e) =
      no_directory (used_from lo paging_directory_table_max_count u t) e

  create_loop-Created :
      (left i : ℕ)
      → i + left ≡ paging_directory_table_max_count
      → Created list_address s i (create_loop list_address left i s)
  unfolding create_loop
  create_loop-Created zero i e = no_directory (λ k p q. absurd (omega arith)) refl
  create_loop-Created (suc left) i e = elim (Bool-cases (s.page_directory_used i)) [
    | inl u ↦ rw u (Created-next i _ u (create_loop-Created left (i + 1) (omega arith)))
    | inr z ↦ rw z (
        directory i (omega arith) (omega arith) z (λ k p q. absurd (omega arith)) refl
          (take_directory-IsTaken i))
  ]

  -- A creation takes the lowest directory of the list that is not in use, marks it, fills it with zeros
  -- but for the entry 0x300, which maps the first 4 MiB for the kernel, and returns its address; where all 32 are in use it
  -- returns NULL and changes nothing.
  pub paging_create_new_page_directory-Created :
      Created list_address s 0 (paging_create_new_page_directory list_address s)
  unfolding paging_create_new_page_directory
  paging_create_new_page_directory-Created = create_loop-Created 32 0 (omega arith)

  release_hit :
      (left lo i : ℕ)
      → lo ≤ i
      → i < lo + left
      → release_loop list_address left lo (directory_at list_address i) s
        ≡ (true, release_directory list_address i s)
  unfolding release_loop
  release_hit zero lo i l h = absurd (omega arith)
  release_hit (suc left) lo i l h = elim (ℕ_discrete lo i) [
    | yes e ↦
        rw (eq→== (directory_at list_address lo) (directory_at list_address i) (omega arith)) (rw e)
    | no n ↦
        rw (ne→== (directory_at list_address lo) (directory_at list_address i) (omega arith))
          (release_hit left (lo + 1) i (omega arith) (omega arith))
  ]

  -- A directory of the list is given back by its address, whatever its index below 32: the call
  -- returns true, the directory is not in use any more, and its entries are zero.
  pub paging_free_page_directory_lem :
      (i : ℕ)
      → i < paging_directory_table_max_count
      → paging_free_page_directory list_address (directory_at list_address i) s
        ≡ (true, release_directory list_address i s)
  unfolding paging_free_page_directory
  paging_free_page_directory_lem i h = release_hit 32 0 i (omega arith) (omega arith)

  release_miss :
      (left lo page_dir : ℕ)
      → ((i : ℕ) → lo ≤ i → i < lo + left → directory_at list_address i ≢ page_dir)
      → release_loop list_address left lo page_dir s ≡ (false, s)
  unfolding release_loop
  release_miss zero lo page_dir h = refl
  release_miss (suc left) lo page_dir h =
      rw (ne→== (directory_at list_address lo) page_dir (h lo (omega arith) (omega arith)))
        (release_miss left (lo + 1) page_dir (λ i p q. h i (omega arith) (omega arith)))

  -- Any other address, NULL or the kernel's directory, is refused, and nothing changes.
  pub paging_free_page_directory-other :
      (page_dir : ℕ)
      → ((i : ℕ) → i < paging_directory_table_max_count → directory_at list_address i ≢ page_dir)
      → paging_free_page_directory list_address page_dir s ≡ (false, s)
  unfolding paging_free_page_directory
  paging_free_page_directory-other page_dir h =
      release_miss 32 0 page_dir (λ i p q. h i (omega arith))
