-- ===== src/Fat32/Ops/Folder.antt =====
-- A folder that `write` makes is one that the other operations accept.
use os_2024_operatingsalsa.Base.{
  ℕ, ◌+◌, ◌-◌, ◌*◌, ◌≤◌, ◌<◌, ◌≡◌, refl, ◌∙◌, ◌≢◌, inl, Bytes, chars, words_bytes, store, Option,
  some, none, pos, [], ◌∷◌, if◌then◌else◌, ◌==◌, arith, eq→==, subst, ◌%◌,
}
use os_2024_operatingsalsa.StringOps.{memset, strlen}
use os_2024_operatingsalsa.StringOps.Memory.{in_range}
use os_2024_operatingsalsa.Fat32.Layout.{
  Fs, Request, packed, name_at, cluster_size, cluster_map_size, end_of_file, empty_entry,
  entry_count, attr_subdirectory, uattr_not_empty, entry_cluster,
}
use os_2024_operatingsalsa.Fat32.Cluster.{write_clusters, read_clusters}
use os_2024_operatingsalsa.Fat32.Cluster.Laws.{write_clusters_lem, read_clusters_lem}
use os_2024_operatingsalsa.Fat32.Directory.{insert_directory, free_slot}
use os_2024_operatingsalsa.Fat32.Directory.Entry.{
  insert_directory_attributes, insert_directory_other, insert_directory_cluster,
}
use os_2024_operatingsalsa.Fat32.Directory.Find.{HasName, Finds, hit, miss, find_duplicate-Finds}
use os_2024_operatingsalsa.Fat32.Directory.Named.{packed-name-IsString, chars-nil-strlen}
use os_2024_operatingsalsa.Fat32.Alloc.Parent.{IsFolder, is_valid_parent_cluster_iff}
use os_2024_operatingsalsa.Fat32.Ops.{
  write, write_folder, store_folder, new_folder_table, free_cluster,
}
use os_2024_operatingsalsa.Fat32.Ops.Stored.{parent_table}
use os_2024_operatingsalsa.Fat32.Directory.Same.{entry_cluster-same}

dots_length : strlen (chars (b'.' ∷ b'.' ∷ [])) 0 ≡ 2
unfolding strlen chars
dots_length = refl

-- What `write` needs to make a folder at cluster `c` with its entry at `i`.
pub record CanMake (g : Bytes) (r : Request) (fs : Fs) (c i : ℕ) : Type 0 where
  pub folder : IsFolder fs r.parent_cluster_number
  pub no_bytes : r.buffer_size ≡ 0
  pub fresh : (k : ℕ) → 1 ≤ k → k < entry_count → ¬ HasName r (parent_table g r fs) k
  pub place : free_cluster fs.cluster_map ≡ some c
  pub place_inside : (3 ≤ c) × (c < cluster_map_size) × (fs.cluster_map c ≡ empty_entry)
  pub room : free_slot (parent_table g r fs) ≡ some i
  pub room_inside : (2 ≤ i) × (i < entry_count)

module _ (g : Bytes) (r : Request) (fs : Fs) (c i : ℕ) (can : CanMake g r fs c i) where
  abbrev p : ℕ
  p = r.parent_cluster_number

  abbrev t : Bytes
  t = parent_table g r fs

  abbrev after : Fs
  after = store_folder g r t c i fs

  names_fit : strlen (packed r) name_at ≤ 13
  names_fit = (packed-name-IsString r can.folder.upper).1

  no_ext : strlen (chars []) 0 ≤ 5
  no_ext = omega (arith, chars-nil-strlen)

  write_makes : write g r fs ≡ some (pos 0, after)
  unfolding write write_folder
  write_makes =
      let valid = (is_valid_parent_cluster_iff g fs p).1 can.folder in
      let amount = eq→== _ _ can.no_bytes in
      rw (valid, unique (find_duplicate-Finds r t), write)
        (rw amount (rw (can.place, can.room, write_folder)))
    where
      unique : {o : Option ℕ} → Finds r t 1 entry_count o → o ≡ none
      unique (hit k e lo hi v least) = absurd (can.fresh k lo hi v)
      unique (miss e never) = e

  parent_apart : p ≢ c
  parent_apart e =
      omega
        (arith, subst (λ q. fs.cluster_map q ≡ end_of_file) e can.folder.last, can.place_inside.2)

  abbrev own_entry : Bytes
  own_entry =
      insert_directory (memset g 0 0 2048) 0 (packed r) name_at (chars []) 0 attr_subdirectory
        uattr_not_empty c 0

  -- Both entries of the new table are folders.
  new_table_attributes :
      (new_folder_table g r c 11 ≡ attr_subdirectory)
      × (new_folder_table g r c 43 ≡ attr_subdirectory)
  unfolding new_folder_table
  new_table_attributes =
      let dots : strlen (chars (b'.' ∷ b'.' ∷ [])) 0 ≤ 13 = omega (arith, dots_length) in
      let kept =
        insert_directory_other own_entry 1 (chars (b'.' ∷ b'.' ∷ [])) 0 (chars []) 0 dots no_ext
          attr_subdirectory uattr_not_empty p 0 11 (inl (omega arith)) in
      (
        kept
            ∙ (insert_directory_attributes (memset g 0 0 2048) 0 (packed r) name_at (chars []) 0
                names_fit no_ext attr_subdirectory uattr_not_empty c 0).0,
        (insert_directory_attributes own_entry 1 (chars (b'.' ∷ b'.' ∷ [])) 0 (chars []) 0 dots
            no_ext attr_subdirectory uattr_not_empty p 0).0,
      )

  abbrev parent' : Bytes
  parent' =
      insert_directory t i (packed r) name_at (chars []) 0 attr_subdirectory uattr_not_empty c 0

  pub after_storage :
      (x : ℕ)
      → after.storage x ≡ (
          if in_range cluster_size cluster_size x
          then words_bytes after.cluster_map (x - cluster_size)
          else if in_range (cluster_size * p) cluster_size x
          then parent' (x - cluster_size * p)
          else if in_range (cluster_size * c) cluster_size x
          then new_folder_table g r c (x - cluster_size * c)
          else fs.storage x)
  unfolding store_folder
  after_storage x =
      let s1 = write_clusters fs.storage (new_folder_table g r c) 0 c 1 in
      let s2 = write_clusters s1 parent' 0 p 1 in
      ground (
        arith,
        can.folder.upper,
        can.place_inside,
        write_clusters_lem fs.storage (new_folder_table g r c) 0 c 1 x,
        write_clusters_lem s1 parent' 0 p 1 x,
        write_clusters_lem s2 (words_bytes (store fs.cluster_map c end_of_file)) 0 1 1 x,
      )

  pub after_map : (x : ℕ) → after.cluster_map x ≡ (if x == c then end_of_file else fs.cluster_map x)
  unfolding store_folder
  after_map x = refl

  pub new-IsFolder : IsFolder after c
  new-IsFolder = record {
    lower = omega (arith, can.place_inside.0);
    upper = can.place_inside.1;
    last = ground (arith, after_map c);
    self = ground (
      arith,
      parent_apart,
      can.place_inside,
      new_table_attributes,
      after_storage (cluster_size * c + 11),
    );
    parent = ground (
      arith,
      parent_apart,
      can.place_inside,
      new_table_attributes,
      after_storage (cluster_size * c + 43),
    );
  }

  parent_byte : (x : ℕ) → x < cluster_size → after.storage (cluster_size * p + x) ≡ parent' x
  parent_byte x h = ground (arith, can.folder.lower, after_storage (cluster_size * p + x))

  kept_byte :
      (x : ℕ) → x < 64 → after.storage (cluster_size * p + x) ≡ fs.storage (cluster_size * p + x)
  kept_byte x h =
      let other =
        insert_directory_other t i (packed r) name_at (chars []) 0 names_fit no_ext
          attr_subdirectory uattr_not_empty c 0 x in
      ground (
        arith,
        can.room_inside,
        can.folder.upper,
        parent_byte x (omega arith),
        other,
        read_clusters_lem fs.storage g 0 p 1 x,
      )

  pub old-IsFolder : IsFolder after p
  old-IsFolder = record {
    lower = can.folder.lower;
    upper = can.folder.upper;
    last = ground (arith, parent_apart, after_map p, can.folder.last);
    self = kept_byte 11 (omega arith) ∙ can.folder.self;
    parent = kept_byte 43 (omega arith) ∙ can.folder.parent;
  }

  pub recorded : (m : Bytes) → entry_cluster (read_clusters after.storage m 0 p 1) i ≡ c % 256
  recorded m =
      entry_cluster-same (read_clusters after.storage m 0 p 1) parent' same i can.room_inside.1
      ∙ insert_directory_cluster t i (packed r) name_at (chars []) 0 names_fit no_ext
          attr_subdirectory uattr_not_empty c 0
    where
      same : (x : ℕ) → x < cluster_size → read_clusters after.storage m 0 p 1 x ≡ parent' x
      same x h =
          ground
            (arith, can.folder.upper, parent_byte x h, read_clusters_lem after.storage m 0 p 1 x)

  -- With a size of 0, a name that no entry from 1 on has, an empty cluster `c` and a free entry `i`,
  -- `write` returns 0. Then cluster `c` is a valid folder and the parent still is one, no other entry
  -- of the table of clusters has changed, and the parent's entry `i` on the disk records `c` modulo
  -- 256 only: from cluster 256 on it names another cluster than the folder's.
  pub write-IsFolder :
      (fs1 : Fs) × (write g r fs ≡ some (pos 0, fs1))
      × IsFolder fs1 c
      × IsFolder fs1 r.parent_cluster_number
      × ((x : ℕ) → x ≢ c → fs1.cluster_map x ≡ fs.cluster_map x)
      × ((m : Bytes)
          → entry_cluster (read_clusters fs1.storage m 0 r.parent_cluster_number 1) i ≡ c % 256)
  write-IsFolder =
      (after, write_makes, new-IsFolder, old-IsFolder, λ x n. ground (arith, after_map x), recorded)
