-- ===== src/Fat32/Ops/Stored.antt =====
-- The state after `write` stored a file: the parent is still a folder, and the first entry of its
-- table with the file's name is the new one.
use os_2024_operatingsalsa.Base.{
  ℕ, suc, ◌+◌, ◌-◌, ◌*◌, ◌^◌, ◌≤◌, ◌<◌, ◌≡◌, sym, ◌∙◌, ap, ◌≢◌, ◌⊎◌, inl, inr, Bytes, Option, some,
  none, pos, false, ◌==◌, arith, dec_lt, dec_le, ne→==, pos_part, subst,
}
use os_2024_operatingsalsa.Fat32.Layout.{
  Fs, Request, packed, name_at, request_ext_at, cluster_size, uattr_not_empty, user_attribute,
  entry_at, ext_at, entry_count,
}
use os_2024_operatingsalsa.Fat32.Cluster.{read_clusters, bytes_to_cluster}
use os_2024_operatingsalsa.Fat32.Cluster.Laws.{read_clusters_lem, bytes_to_cluster_least}
use os_2024_operatingsalsa.Fat32.Directory.{free_slot, find_entry, find_duplicate}
use os_2024_operatingsalsa.Fat32.Directory.Find.{
  HasName, Finds, hit, miss, find_duplicate-Finds, find_entry-Finds, Finds-first, FreeSlot, slot,
  all_used, free_slot-FreeSlot,
}
use os_2024_operatingsalsa.Fat32.Directory.Named.{
  IsPadded, packed-name-IsString, packed-ext-IsString, insert_directory-HasName,
}
use os_2024_operatingsalsa.Fat32.Directory.Same.{SameTable, HasName-same}
use os_2024_operatingsalsa.Fat32.Directory.Entry.{insert_directory_other}
use os_2024_operatingsalsa.Fat32.Alloc.{first_fit}
use os_2024_operatingsalsa.Fat32.Alloc.FirstFit.{IsRun, Fits, found, full, first_fit-Fits}
use os_2024_operatingsalsa.Fat32.Alloc.Parent.{IsFolder, is_valid_parent_cluster_iff}
use os_2024_operatingsalsa.Fat32.Ops.{write, write_file, write_file_at, store_file}
use os_2024_operatingsalsa.Fat32.Ops.StoreFile.{file_table, store_file-map, store_file-storage}

-- The table of the request's parent on the disk.
abbrev pub parent_table : Bytes → Request → Fs → Bytes
parent_table g r fs = read_clusters fs.storage g 0 r.parent_cluster_number 1

-- What `write` needs to store a file at cluster `c`.
pub record CanStore (g : Bytes) (r : Request) (fs : Fs) (c : ℕ) : Type 0 where
  pub padded : IsPadded r
  pub some_bytes : 0 < r.buffer_size
  pub small : r.buffer_size < 2 ^ 32
  pub folder : IsFolder fs r.parent_cluster_number
  pub place : first_fit fs.cluster_map (bytes_to_cluster r.buffer_size) ≡ pos c
  pub fresh : (k : ℕ) → k < entry_count → ¬ HasName r (parent_table g r fs) k
  pub room : ℕ
  pub room_inside : (2 ≤ room) × (room < entry_count)
  pub room_free : user_attribute (parent_table g r fs) room ≢ uattr_not_empty

module _ (g : Bytes) (r : Request) (fs : Fs) (c : ℕ) (can : CanStore g r fs c) where
  abbrev pub n : ℕ
  n = bytes_to_cluster r.buffer_size

  abbrev pub p : ℕ
  p = r.parent_cluster_number

  pub n_pos : 0 < n
  n_pos = omega (arith, bytes_to_cluster_least r.buffer_size can.small, can.some_bytes)

  pub IsRun-at : (3 ≤ c) × IsRun fs.cluster_map n c
  IsRun-at = go (first_fit-Fits fs.cluster_map n n_pos)
    where
      go : Fits fs.cluster_map n 3 (first_fit fs.cluster_map n) → (3 ≤ c) × IsRun fs.cluster_map n c
      go (found i e h run least) =
          let w : i ≡ c = ap pos_part (sym e ∙ can.place) in
          (omega arith, subst (IsRun fs.cluster_map n) w run)
      go (full e never) = absurd (cc (can.place))

  -- The parent is no cluster of the run.
  outside : (p < c) ⊎ (c + n ≤ p)
  outside = elim (dec_lt p c) [
    | yes h ↦ inl h
    | no h ↦ elim (dec_le (c + n) p) [
      | yes k ↦ inr k
      | no k ↦
          absurd (omega (arith, IsRun-at.1.empty p (omega arith) (omega arith), can.folder.last))
    ]
  ]

  unique : find_duplicate r (parent_table g r fs) ≡ none
  unique = go (find_duplicate-Finds r (parent_table g r fs))
    where
      go : {o : Option ℕ} → Finds r (parent_table g r fs) 1 entry_count o → o ≡ none
      go (hit j e lo hi v least) = absurd (can.fresh j hi v)
      go (miss e never) = e

  slot_found : (i : ℕ) × (free_slot (parent_table g r fs) ≡ some i) × (2 ≤ i) × (i < entry_count)
  slot_found = go (free_slot-FreeSlot (parent_table g r fs))
    where
      go :
          {o : Option ℕ}
          → FreeSlot (parent_table g r fs) 2 entry_count o
          → (i : ℕ) × (o ≡ some i) × (2 ≤ i) × (i < entry_count)
      go (slot j e lo hi u h) = (j, e, lo, hi)
      go (all_used e h) = absurd (can.room_free (h can.room can.room_inside.0 can.room_inside.1))

  pub write_stores :
      (i : ℕ) × (write g r fs ≡ some (pos 0, store_file r (parent_table g r fs) c i fs))
      × (2 ≤ i)
      × (i < entry_count)
  unfolding write write_file write_file_at
  write_stores =
      let (i, e, lo, hi) = slot_found in
      let valid = (is_valid_parent_cluster_iff g fs p).1 can.folder in
      let c_suc : c ≡ suc (c - 1) = omega (arith, IsRun-at.0) in
      let place : first_fit fs.cluster_map n ≡ pos (suc (c - 1)) = can.place ∙ ap pos c_suc in
      let amount : (r.buffer_size == 0) ≡ false = ne→== _ _ (omega (arith, can.some_bytes)) in
      (
        i,
        rw (valid, unique, write)
            (rw (amount, place, write_file) (rw (e, write_file_at) (rw (← c_suc)))),
        lo,
        hi,
      )

  module _ (i : ℕ) (lo : 2 ≤ i) (hi : i < entry_count) where
    abbrev pub table : Bytes
    table = parent_table g r fs

    abbrev pub after : Fs
    after = store_file r table c i fs

    pub after_storage :
        (x : ℕ) → x < cluster_size → after.storage (cluster_size * p + x) ≡ file_table r table c i x
    after_storage x h = ground (
      arith,
      outside,
      can.folder.lower,
      IsRun-at.0,
      store_file-storage r table c i fs IsRun-at.1.fits (cluster_size * p + x) can.folder.upper,
    )

    pub other :
        (x : ℕ) → (x < entry_at i) ⊎ (entry_at i + 32 ≤ x) → file_table r table c i x ≡ table x
    other x h =
        insert_directory_other table i (packed r) name_at (packed r) request_ext_at
          (packed-name-IsString r can.folder.upper).1 (packed-ext-IsString r can.folder.upper).1 0
          uattr_not_empty c r.buffer_size x h

    before : (x : ℕ) → x < cluster_size → table x ≡ fs.storage (cluster_size * p + x)
    before x h = ground (arith, can.folder.upper, read_clusters_lem fs.storage g 0 p 1 x)

    -- The parent is a folder as before.
    pub after-IsFolder : IsFolder after p
    after-IsFolder = record {
      lower = can.folder.lower;
      upper = can.folder.upper;
      last =
          ground (arith, outside, can.folder.last, store_file-map r table c i fs IsRun-at.1.fits p);
      self =
          after_storage 11 (omega arith)
          ∙ other 11 (inl (omega arith))
          ∙ before 11 (omega arith)
          ∙ can.folder.self;
      parent =
          after_storage 43 (omega arith)
          ∙ other 43 (inl (omega arith))
          ∙ before 43 (omega arith)
          ∙ can.folder.parent;
    }

    pub read_table :
        (m : Bytes) → SameTable (read_clusters after.storage m 0 p 1) (file_table r table c i)
    read_table m x h =
        ground
          (arith, can.folder.upper, after_storage x h, read_clusters_lem after.storage m 0 p 1 x)

    others_differ : (k : ℕ) → k < i → ¬ HasName r (file_table r table c i) k
    others_differ k h v = can.fresh k (omega arith) (record {
      name = λ j q. v.name j q ∙ other (entry_at k + j) (inl (omega arith));
      ext = λ j q. v.ext j q ∙ other (ext_at k + j) (inl (omega arith));
    })

    pub entry_found :
        (m : Bytes) (buf : ℕ)
        → find_entry (record r { buf = buf }) (read_clusters after.storage m 0 p 1) ≡ some i
    entry_found m buf =
        Finds-first r2 t 0 entry_count i (omega arith) hi
          (HasName-same (file_table r table c i) t (λ x h. sym (read_table m x h)) i hi r2
            (retarget named))
          (λ k _ h v.
            others_differ k h
              (back (HasName-same t (file_table r table c i) (read_table m) k (omega arith) r2 v)))
          (find_entry-Finds r2 t)
      where
        r2 : Request
        r2 = record r { buf = buf }

        t : Bytes
        t = read_clusters after.storage m 0 p 1

        named : HasName r (file_table r table c i) i
        named =
            insert_directory-HasName r can.padded can.folder.upper table i 0 uattr_not_empty c
              r.buffer_size

        retarget : {u : Bytes} {k : ℕ} → HasName r u k → HasName r2 u k
        retarget v = record { name = v.name; ext = v.ext }

        back : {u : Bytes} {k : ℕ} → HasName r2 u k → HasName r u k
        back v = record { name = v.name; ext = v.ext }
