-- ===== src/Fat32/Ops/Delete.antt =====
-- What `delete` does to a file or an empty folder, and that the name is gone afterwards.
use os_2024_operatingsalsa.Base.{
  ℕ, ◌+◌, ◌-◌, ◌*◌, ◌/◌, ◌%◌, ◌<◌, ◌≡◌, Bytes, false, ◌&&◌, words_bytes, some, pos, List,
  if◌then◌else◌, ◌==◌, arith, ◌≤◌, ◌≢◌, none, ℕ_discrete, ◌∙◌, Option,
}
use os_2024_operatingsalsa.StringOps.{memset}
use os_2024_operatingsalsa.StringOps.Memory.{in_range, memset_lem}
use os_2024_operatingsalsa.Fat32.Layout.{
  Fs, Request, cluster_size, cluster_map_size, empty_entry, entry_count, entry_at, attribute,
  attr_subdirectory, entry_cluster, ext_at,
}
use os_2024_operatingsalsa.Fat32.Cluster.{write_clusters, read_clusters}
use os_2024_operatingsalsa.Fat32.Cluster.Laws.{read_clusters_lem, write_clusters_lem}
use os_2024_operatingsalsa.Fat32.Directory.Find.{
  HasName, find_entry-Finds, Finds-first, Finds, hit, miss,
}
use os_2024_operatingsalsa.Fat32.Alloc.Parent.{IsFolder, is_valid_parent_cluster_iff}
use os_2024_operatingsalsa.Fat32.Ops.{
  delete, delete_entry, free_chain, folder_not_empty, find_entry, read, load_parent,
}
use os_2024_operatingsalsa.Fat32.Ops.Freed.{member, IsChain, Distinct, HasFreed, free_chain_lem}
use os_2024_operatingsalsa.Fat32.Ops.Stored.{parent_table}

-- What `delete` needs to remove entry `i` of the parent, whose clusters are `xs`.
pub record CanDelete (g : Bytes) (r : Request) (fs : Fs) (i : ℕ) (xs : List ℕ) : Type 0 where
  pub folder : IsFolder fs r.parent_cluster_number
  pub inside : i < entry_count
  pub named : HasName r (parent_table g r fs) i
  pub first : (k : ℕ) → k < i → ¬ HasName r (parent_table g r fs) k
  pub chain : IsChain fs.cluster_map (entry_cluster (parent_table g r fs) i) xs
  pub distinct : Distinct xs
  -- A folder holds no entry but its own two.
  pub removable :
      (attribute (parent_table g r fs) i == attr_subdirectory)
        && folder_not_empty g fs (entry_cluster (parent_table g r fs) i)
      ≡ false

module _ (g : Bytes) (r : Request) (fs : Fs) (i : ℕ) (xs : List ℕ)
    (can : CanDelete g r fs i xs) where
  abbrev p : ℕ
  p = r.parent_cluster_number

  abbrev t : Bytes
  t = parent_table g r fs

  chain_freed :
      HasFreed
        (memset g 0 0 cluster_size)
        xs
        fs
        (free_chain (cluster_map_size + 1) (memset g 0 0 cluster_size) (entry_cluster t i) fs)
  chain_freed =
      free_chain_lem (memset g 0 0 cluster_size) fs (entry_cluster t i) xs can.chain can.distinct

  abbrev cleared : Bytes
  cleared = memset t (entry_at i) 0 32

  abbrev after : Fs
  after = record chain_freed.after {
    storage =
        write_clusters
          (write_clusters chain_freed.after.storage (words_bytes chain_freed.after.cluster_map) 0 1
            1)
          cleared 0 p 1;
  }

  delete_returns : delete g r fs ≡ some (pos 0, after)
  unfolding delete delete_entry
  delete_returns =
      let valid = (is_valid_parent_cluster_iff g fs p).1 can.folder in
      let found =
        Finds-first r t 0 entry_count i (omega arith) can.inside can.named (λ k _ h. can.first k h)
          (find_entry-Finds r t) in
      rw (valid, found, delete) (rw (can.removable, chain_freed.returns, delete_entry))

  after_map :
      (x : ℕ) → after.cluster_map x ≡ (if member x xs then empty_entry else fs.cluster_map x)
  after_map x = chain_freed.map x

  wiped : (x : ℕ) → memset g 0 0 cluster_size (x % cluster_size) ≡ 0
  wiped x = ground (arith, memset_lem g 0 0 cluster_size (x % cluster_size))

  -- Each byte of the disk: the parent's table with the entry cleared, the table of clusters in
  -- cluster 1, zeros in the clusters of the chain, and all else as before.
  after_storage :
      (x : ℕ)
      → after.storage x ≡ (
          if in_range (cluster_size * p) cluster_size x
          then (if in_range (cluster_size * p + entry_at i) 32 x then 0 else fs.storage x)
          else if in_range cluster_size cluster_size x
          then words_bytes after.cluster_map (x - cluster_size)
          else if member (x / cluster_size) xs
          then 0
          else fs.storage x)
  after_storage x = ground (
    arith,
    can.folder.upper,
    wiped x,
    chain_freed.storage x,
    memset_lem t (entry_at i) 0 32 (x - cluster_size * p),
    read_clusters_lem fs.storage g 0 p 1 (x - cluster_size * p),
    write_clusters_lem chain_freed.after.storage (words_bytes chain_freed.after.cluster_map) 0 1 1
        x,
    write_clusters_lem
        (write_clusters chain_freed.after.storage (words_bytes chain_freed.after.cluster_map) 0 1 1)
        cleared 0 p 1 x,
  )

  -- `delete` of the first entry with the name, a file or a folder with no entries of its own, whose
  -- clusters form a chain without repetition, in a valid parent, returns 0: exactly the entries of the
  -- chain become empty, the entry's 32 bytes are zero and the rest of the parent is as before, the new
  -- table of clusters is on the disk, the clusters of the chain other than those two are zero, and no
  -- other byte of the disk changes.
  pub delete_frees :
      (fs1 : Fs) × (delete g r fs ≡ some (pos 0, fs1))
      × ((x : ℕ) → fs1.cluster_map x ≡ (if member x xs then empty_entry else fs.cluster_map x))
      × ((x : ℕ)
          → fs1.storage x ≡ (
              if in_range (cluster_size * r.parent_cluster_number) cluster_size x
              then (if in_range (cluster_size * r.parent_cluster_number + entry_at i) 32 x
                  then 0
                  else fs.storage x)
              else if in_range cluster_size cluster_size x
              then words_bytes fs1.cluster_map (x - cluster_size)
              else if member (x / cluster_size) xs
              then 0
              else fs.storage x))
  delete_frees = (after, delete_returns, after_map, after_storage)

  module _ (own : 2 ≤ i) (apart : member p xs ≡ false) (has_name : r.name 0 ≢ 0)
      (single : (k : ℕ) → k < entry_count → k ≢ i → ¬ HasName r t k) where
    after-IsFolder : IsFolder after p
    after-IsFolder = record {
      lower = can.folder.lower;
      upper = can.folder.upper;
      last = ground (arith, after_map p, can.folder.last);
      self = ground (arith, after_storage (cluster_size * p + 11), can.folder.self);
      parent = ground (arith, after_storage (cluster_size * p + 43), can.folder.parent);
    }

    after_byte :
        (m : Bytes) (x : ℕ)
        → x < cluster_size
        → read_clusters after.storage m 0 p 1 x ≡ (if in_range (entry_at i) 32 x then 0 else t x)
    after_byte m x h = ground (
      arith,
      can.folder.upper,
      read_clusters_lem after.storage m 0 p 1 x,
      read_clusters_lem fs.storage g 0 p 1 x,
      after_storage (cluster_size * p + x),
    )

    gone :
        (m : Bytes) (k : ℕ) → k < entry_count → ¬ HasName r (read_clusters after.storage m 0 p 1) k
    gone m k h v = elim (ℕ_discrete k i) [
      | yes e ↦ has_name (ground (arith, v.name 0, after_byte m (entry_at k)))
      | no n ↦ single k h n (record {
        name = λ j q. v.name j q ∙ ground (arith, after_byte m (entry_at k + j));
        ext = λ j q. v.ext j q ∙ ground (arith, after_byte m (ext_at k + j));
      })
    ]

    not_found : (m : Bytes) → find_entry r (read_clusters after.storage m 0 p 1) ≡ none
    not_found m = go (find_entry-Finds r (read_clusters after.storage m 0 p 1))
      where
        go :
            {o : Option ℕ}
            → Finds r (read_clusters after.storage m 0 p 1) 0 entry_count o
            → o ≡ none
        go (hit k e lo hi v least) = absurd (gone m k hi v)
        go (miss e never) = e

    -- A name that only the deleted entry had is not found any more: after the deletion of an entry
    -- from 2 on, whose chain does not hold the parent, `read` of the name returns 3. The first byte
    -- of the name is not zero, since a cleared entry has the empty name.
    pub read-delete :
        (g2 : Bytes)
        → (fs1 : Fs) × (fs2 : Fs) × (delete g r fs ≡ some (pos 0, fs1))
          × (read g2 r fs1 ≡ some (pos 3, fs2))
    unfolding read load_parent
    read-delete g2 =
        let valid = (is_valid_parent_cluster_iff g2 after p).1 after-IsFolder in
        let missing = not_found after.dir_table_buf in
        (after, load_parent r after, delete_returns, rw (valid, missing, read))
