-- ===== src/Fat32/Ops/RoundTrip.antt =====
-- What `write` stores, `read` returns.
use os_2024_operatingsalsa.Base.{
  ℕ, suc, ◌+◌, ◌-◌, ◌*◌, ◌≤◌, ◌<◌, ◌≡◌, ◌∙◌, Bytes, some, pos, false, ◌==◌, ltb, arith, ne→==,
  le→ltb, subst,
}
use os_2024_operatingsalsa.Fat32.Layout.{
  Fs, Request, packed, name_at, request_ext_at, cluster_size, cluster_map_size, uattr_not_empty,
  attribute, attr_subdirectory, filesize, entry_cluster, entry_at, entry_count,
}
use os_2024_operatingsalsa.Fat32.Cluster.{read_clusters, bytes_to_cluster}
use os_2024_operatingsalsa.Fat32.Cluster.Laws.{bytes_to_cluster_least}
use os_2024_operatingsalsa.Fat32.Directory.Named.{packed-name-IsString, packed-ext-IsString}
use os_2024_operatingsalsa.Fat32.Directory.Same.{entry_cluster-same, filesize-same}
use os_2024_operatingsalsa.Fat32.Directory.Entry.{
  insert_directory_attributes, insert_directory_cluster, insert_directory_size,
}
use os_2024_operatingsalsa.Fat32.Alloc.Parent.{is_valid_parent_cluster_iff}
use os_2024_operatingsalsa.Fat32.Ops.{read, read_entry, read_chain, load_parent, write, store_file}
use os_2024_operatingsalsa.Fat32.Ops.Chain.{HasRead, read_chain-HasRead}
use os_2024_operatingsalsa.Fat32.Ops.StoreFile.{file_table, store_file-map, store_file-storage}
use os_2024_operatingsalsa.Fat32.Ops.Stored
use os_2024_operatingsalsa.Fat32.Ops.Stored.{CanStore, parent_table, write_stores}

module _ (g : Bytes) (r : Request) (fs : Fs) (c : ℕ) (can : CanStore g r fs c)
    (near : c < 256) where
  abbrev n : ℕ
  n = bytes_to_cluster r.buffer_size

  abbrev p : ℕ
  p = r.parent_cluster_number

  module _ (i : ℕ) (lo : 2 ≤ i) (hi : i < entry_count) (g2 : Bytes) (buf2 : ℕ) where
    abbrev t : Bytes
    t = file_table r (parent_table g r fs) c i

    abbrev after : Fs
    after = store_file r (parent_table g r fs) c i fs

    abbrev r2 : Request
    r2 = record r { buf = buf2 }

    abbrev loaded : Fs
    loaded = load_parent r2 after

    entry_fields : (attribute t i ≡ 0) × (filesize t i ≡ r.buffer_size) × (entry_cluster t i ≡ c)
    entry_fields =
        let a = (packed-name-IsString r can.folder.upper).1 in
        let b = (packed-ext-IsString r can.folder.upper).1 in
        (
          (insert_directory_attributes (parent_table g r fs) i (packed r) name_at (packed r)
              request_ext_at a b 0 uattr_not_empty c r.buffer_size).0,
          insert_directory_size (parent_table g r fs) i (packed r) name_at (packed r) request_ext_at
                a b 0 uattr_not_empty c r.buffer_size
              ∙ omega (arith, can.small),
          insert_directory_cluster (parent_table g r fs) i (packed r) name_at (packed r)
                request_ext_at a b 0 uattr_not_empty c r.buffer_size
              ∙ omega arith,
        )

    chain_read : HasRead loaded buf2 c 0 n (read_chain cluster_map_size loaded buf2 c 0)
    unfolding load_parent
    chain_read =
        let fits = (Stored.IsRun-at g r fs c can).1.fits in
        let e : suc (n - 1) ≡ n = omega (arith, Stored.n_pos g r fs c can) in
        subst (λ q. HasRead loaded buf2 c 0 q (read_chain cluster_map_size loaded buf2 c 0)) e
          (read_chain-HasRead c n buf2 fits (n - 1) cluster_map_size 0 c loaded (omega arith)
            (omega arith) (omega arith)
            (λ x a b. ground (arith, store_file-map r (parent_table g r fs) c i fs fits x)))

    -- The bytes of the run on the disk are those that the request gave.
    file_bytes :
        (k : ℕ) → k < cluster_size * n → after.storage (cluster_size * c + k) ≡ fs.ram (r.buf + k)
    file_bytes k h =
        let run = Stored.IsRun-at g r fs c can in
        ground (
          arith,
          run.0,
          store_file-storage r (parent_table g r fs) c i fs run.1.fits (cluster_size * c + k)
              can.folder.upper,
        )

    read_returns : read g2 r2 after ≡ some (pos 0, chain_read.after)
    unfolding read read_entry load_parent
    read_returns =
        let valid =
          (is_valid_parent_cluster_iff g2 after p).1 (Stored.after-IsFolder g r fs c can i lo hi) in
        let found = Stored.entry_found g r fs c can i lo hi after.dir_table_buf buf2 in
        let same = Stored.read_table g r fs c can i lo hi after.dir_table_buf in
        let (plain, size, first) = entry_fields in
        let u = read_clusters after.storage after.dir_table_buf 0 p 1 in
        let attr : (attribute u i == attr_subdirectory) ≡ false =
          rw (same (entry_at i + 11) (omega arith)) (ne→== _ _ (omega arith)) in
        let enough : ltb r.buffer_size (filesize u i) ≡ false =
          rw (filesize-same u t same i hi, size)
            (le→ltb r.buffer_size r.buffer_size (omega arith)) in
        let cluster : entry_cluster u i ≡ c = entry_cluster-same u t same i hi ∙ first in
        rw (valid, found, read) (rw (attr, enough, cluster, read_entry) (rw chain_read.returns))

    read_bytes : (k : ℕ) → k < r.buffer_size → chain_read.after.ram (buf2 + k) ≡ fs.ram (r.buf + k)
    unfolding load_parent
    read_bytes k h =
        let enough = (bytes_to_cluster_least r.buffer_size can.small).0 in
        ground (arith, enough, chain_read.bytes (buf2 + k), file_bytes k (omega arith))

  -- With a padded name that no entry of the parent folder has, a size between 1 and 2^32 - 1, a free
  -- entry, and a cluster below 256 that `first_fit` gives, `write` returns 0. A `read` of the same
  -- name into any buffer of the same size then returns 0, and the buffer holds the bytes that the
  -- file was written from. The stacks of the two calls are arbitrary.
  pub read-write :
      (g2 : Bytes) (buf2 : ℕ)
      → (fs1 : Fs) × (fs2 : Fs) × (write g r fs ≡ some (pos 0, fs1))
        × (read g2 (record r { buf = buf2 }) fs1 ≡ some (pos 0, fs2))
        × ((k : ℕ) → k < r.buffer_size → fs2.ram (buf2 + k) ≡ fs.ram (r.buf + k))
  read-write g2 buf2 =
      let (i, e, lo, hi) = write_stores g r fs c can in
      (
        after i lo hi g2 buf2,
        (chain_read i lo hi g2 buf2).after,
        e,
        read_returns i lo hi g2 buf2,
        read_bytes i lo hi g2 buf2,
      )
