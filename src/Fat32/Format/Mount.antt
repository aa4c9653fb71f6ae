-- ===== src/Fat32/Format/Mount.antt =====
-- A disk that `create_fat32` formats is mounted with the same table of clusters.
use os_2024_operatingsalsa.Base.{
  ℕ, zero, suc, ◌+◌, ◌*◌, ◌%◌, ◌^◌, ◌≤◌, ◌<◌, ◌≡◌, refl, ◌∙◌, Bytes, false, words_bytes,
  bytes_words, load32, store, if◌then◌else◌, ◌==◌, arith, bytes_words-words_bytes, ap, List, ne→==,
  ◌∷◌, chars, [], inl, inr,
}
use os_2024_operatingsalsa.StringOps.{memset, memcpy, strlen}
use os_2024_operatingsalsa.StringOps.Memory.{in_range, memcpy_lem}
use os_2024_operatingsalsa.StringOps.Compare.{memcmp-eq_zero}
use os_2024_operatingsalsa.Disk.{write_blocks}
use os_2024_operatingsalsa.Disk.Laws.{write_blocks_lem}
use os_2024_operatingsalsa.Fat32.Layout.{
  Fs, cluster_size, cluster_map_size, cluster_0_value, cluster_1_value, end_of_file, empty_entry,
}
use os_2024_operatingsalsa.Fat32.Cluster.{read_clusters, write_clusters}
use os_2024_operatingsalsa.Fat32.Cluster.Laws.{read_clusters_lem, write_clusters_lem}
use os_2024_operatingsalsa.Fat32.Format.{
  fs_signature, clear_disk, map_loop, fresh_map, root_table, create_fat32, is_empty_storage,
  load_map, initialize_filesystem_fat32, attr_subdirectory, insert_directory, root_cluster_number,
  uattr_not_empty,
}
use os_2024_operatingsalsa.Fat32.Alloc.Parent.{IsFolder}
use os_2024_operatingsalsa.Fat32.Directory.Entry.{
  insert_directory_other, insert_directory_attributes,
}

map_loop_lem :
    (left i : ℕ) (map : ℕ → ℕ) (x : ℕ)
    → map_loop left i map x ≡ (if in_range i left x then empty_entry else map x)
unfolding map_loop
map_loop_lem zero i map x = ground arith
map_loop_lem (suc left) i map x =
    ground (arith, map_loop_lem left (i + 1) (store map i empty_entry) x)

-- The table of a new file system: two reserved values, the root folder, and empty entries.
abbrev pub fresh_entry : ℕ → ℕ
fresh_entry x =
    if x == 0
    then cluster_0_value
    else if x == 1
    then cluster_1_value
    else if x == 2
    then end_of_file
    else empty_entry

reserved :
    (map : ℕ → ℕ) (x a b c : ℕ)
    → x < cluster_map_size
    → (if in_range 3 509 x then empty_entry else store (store (store map 0 a) 1 b) 2 c x)
      ≡ (if x == 0 then a else if x == 1 then b else if x == 2 then c else empty_entry)
reserved map x a b c h = ground arith

fresh_map_lem : (map : ℕ → ℕ) (x : ℕ) → x < cluster_map_size → fresh_map map x ≡ fresh_entry x
unfolding fresh_map
fresh_map_lem map x h =
    map_loop_lem 509 3 (store (store (store map 0 cluster_0_value) 1 cluster_1_value) 2 end_of_file)
      x
    ∙ reserved map x cluster_0_value cluster_1_value end_of_file h

fresh_entry-lt : (x : ℕ) → fresh_entry x % 2 ^ 32 ≡ fresh_entry x
fresh_entry-lt zero = refl
fresh_entry-lt (suc zero) = refl
fresh_entry-lt (suc (suc zero)) = refl
fresh_entry-lt (suc (suc (suc x))) =
    rw (ne→== (suc (suc (suc x))) 0 (omega arith), ne→== (suc (suc (suc x))) 1 (omega arith))
      (rw (ne→== (suc (suc (suc x))) 2 (omega arith)))

words_same :
    (a b : Bytes)
    → ((x : ℕ) → x < cluster_size → a x ≡ b x)
    → (i : ℕ) → i < cluster_map_size
    → bytes_words a i ≡ bytes_words b i
unfolding bytes_words load32
words_same a b h i l = rw (
  h (4 * i) (omega arith),
  h (4 * i + 1) (omega arith),
  h (4 * i + 2) (omega arith),
  h (4 * i + 3) (omega arith),
)

abbrev root_name : List ℕ
root_name = b'r' ∷ b'o' ∷ b'o' ∷ b't' ∷ []

root_fits : strlen (chars root_name) 0 ≤ 13
unfolding strlen chars
root_fits = omega arith

dots_fit : strlen (chars (b'.' ∷ b'.' ∷ [])) 0 ≤ 13
unfolding strlen chars
dots_fit = omega arith

no_ext : strlen (chars []) 0 ≤ 5
unfolding strlen chars
no_ext = omega arith

module _ (g : Bytes) (fs : Fs) where
  abbrev one_entry : Bytes
  one_entry =
      insert_directory g 0 (chars root_name) 0 (chars []) 0 attr_subdirectory uattr_not_empty
        root_cluster_number 0

  abbrev created : Fs
  created = create_fat32 g fs

  -- The signature stands in the first block, the table of clusters in cluster 1, and the root's table
  -- in cluster 2.
  created_signature : (x : ℕ) → x < 512 → created.storage x ≡ fs_signature x
  unfolding create_fat32
  created_signature x h =
      let map = fresh_map fs.cluster_map in
      let sector = memcpy g 0 fs_signature 0 512 in
      let cleared = clear_disk cluster_map_size 0 (memset g 0 0 cluster_size) fs.storage in
      let s1 = write_blocks cleared sector 0 0 1 in
      let s2 = write_clusters s1 (words_bytes map) 0 1 1 in
      ground (
        arith,
        write_blocks_lem cleared sector 0 0 1 x,
        write_clusters_lem s1 (words_bytes map) 0 1 1 x,
        write_clusters_lem s2 (root_table g) 0 2 1 x,
        memcpy_lem g 0 fs_signature 0 512 x,
      )

  created_table :
      (x : ℕ)
      → x < cluster_size
      → created.storage (cluster_size + x) ≡ words_bytes created.cluster_map x
  unfolding create_fat32
  created_table x h =
      let map = fresh_map fs.cluster_map in
      let sector = memcpy g 0 fs_signature 0 512 in
      let cleared = clear_disk cluster_map_size 0 (memset g 0 0 cluster_size) fs.storage in
      let s1 = write_blocks cleared sector 0 0 1 in
      let s2 = write_clusters s1 (words_bytes map) 0 1 1 in
      ground (
        arith,
        write_clusters_lem s1 (words_bytes map) 0 1 1 (cluster_size + x),
        write_clusters_lem s2 (root_table g) 0 2 1 (cluster_size + x),
      )

  created_root :
      (x : ℕ) → x < cluster_size → created.storage (2 * cluster_size + x) ≡ root_table g x
  unfolding create_fat32
  created_root x h =
      let map = fresh_map fs.cluster_map in
      let sector = memcpy g 0 fs_signature 0 512 in
      let cleared = clear_disk cluster_map_size 0 (memset g 0 0 cluster_size) fs.storage in
      let s1 = write_blocks cleared sector 0 0 1 in
      let s2 = write_clusters s1 (words_bytes map) 0 1 1 in
      ground (arith, write_clusters_lem s2 (root_table g) 0 2 1 (2 * cluster_size + x))

  created_map : (x : ℕ) → x < cluster_map_size → created.cluster_map x ≡ fresh_entry x
  unfolding create_fat32
  created_map x h = fresh_map_lem fs.cluster_map x h

  root_other : (x : ℕ) → 64 ≤ x → root_table g x ≡ g x
  unfolding root_table
  root_other x h =
      insert_directory_other one_entry 1 (chars (b'.' ∷ b'.' ∷ [])) 0 (chars []) 0 dots_fit no_ext
        attr_subdirectory uattr_not_empty root_cluster_number 0 x (inr h)
      ∙ insert_directory_other g 0 (chars root_name) 0 (chars []) 0 root_fits no_ext
          attr_subdirectory uattr_not_empty root_cluster_number 0 x (inr (omega arith))

  root_attributes : (root_table g 11 ≡ attr_subdirectory) × (root_table g 43 ≡ attr_subdirectory)
  unfolding root_table
  root_attributes = (
    insert_directory_other one_entry 1 (chars (b'.' ∷ b'.' ∷ [])) 0 (chars []) 0 dots_fit no_ext
          attr_subdirectory uattr_not_empty root_cluster_number 0 11 (inl (omega arith))
        ∙ (insert_directory_attributes g 0 (chars root_name) 0 (chars []) 0 root_fits no_ext
            attr_subdirectory uattr_not_empty root_cluster_number 0).0,
    (insert_directory_attributes one_entry 1 (chars (b'.' ∷ b'.' ∷ [])) 0 (chars []) 0 dots_fit
        no_ext attr_subdirectory uattr_not_empty root_cluster_number 0).0,
  )

  -- The root of a new file system is a valid folder, but `create_fat32` never clears its table: all
  -- bytes behind the two entries that it assigns are what the stack held, so that the folder's other
  -- 62 entries are arbitrary.
  pub create_fat32-IsFolder :
      IsFolder (create_fat32 g fs) root_cluster_number
      × ((x : ℕ)
          → 64 ≤ x
          → x < cluster_size
          → (create_fat32 g fs).storage (cluster_size * root_cluster_number + x) ≡ g x)
  create_fat32-IsFolder = (
    record {
      lower = omega arith;
      upper = omega arith;
      last = created_map 2 (omega arith);
      self = created_root 11 (omega arith) ∙ root_attributes.0;
      parent = created_root 43 (omega arith) ∙ root_attributes.1;
    },
    λ x h k. created_root x k ∙ root_other x h,
  )

  -- What a later start with the disk finds, whatever its table and its stack hold.
  module _ (g2 : Bytes) (old_map : ℕ → ℕ) where
    abbrev restarted : Fs
    restarted = record created { cluster_map = old_map }

    recognised : is_empty_storage g2 restarted ≡ false
    unfolding is_empty_storage
    recognised =
        let sector = read_clusters created.storage g2 0 0 1 in
        let same = (memcmp-eq_zero sector 0 fs_signature 0 512).1 (λ x _ h. agree x h) in rw same
      where
        agree :
            (x : ℕ)
            → x < 512
            → read_clusters created.storage g2 0 0 1 (0 + x) ≡ fs_signature (0 + x)
        agree x h =
            ground
              (arith, created_signature x h, read_clusters_lem created.storage g2 0 0 1 (0 + x))

    loaded : (i : ℕ) → i < cluster_map_size → (load_map restarted).cluster_map i ≡ fresh_entry i
    unfolding load_map
    loaded i h =
        words_same (read_clusters created.storage (words_bytes old_map) 0 1 1)
          (words_bytes created.cluster_map) same i h
        ∙ bytes_words-words_bytes created.cluster_map i
        ∙ ap (λ (v : ℕ). v % 2 ^ 32) (created_map i h)
        ∙ fresh_entry-lt i
      where
        same :
            (x : ℕ)
            → x < cluster_size
            → read_clusters created.storage (words_bytes old_map) 0 1 1 x
              ≡ words_bytes created.cluster_map x
        same x h = ground (
          arith,
          created_table x h,
          read_clusters_lem created.storage (words_bytes old_map) 0 1 1 x,
        )

    -- A disk that `create_fat32` formatted is not formatted again when it is mounted: the disk stays as
    -- it is, and the table of clusters in memory is the fresh one, with the reserved values of
    -- clusters 0 and 1, the end of the root's chain at 2, and 509 empty entries.
    pub initialize-create :
        let mounted =
          initialize_filesystem_fat32 g2 (record (create_fat32 g fs) { cluster_map = old_map }) in
        (mounted.storage ≡ (create_fat32 g fs).storage)
        × ((i : ℕ) → i < cluster_map_size → mounted.cluster_map i ≡ fresh_entry i)
    unfolding initialize_filesystem_fat32
    initialize-create = rw recognised (unfold load_map in refl, loaded)
