-- ===== src/Shell/Remove/Endless.antt =====
-- A recursion of `rmHelper` of src/user-shell.c that does not end.
use os_2024_operatingsalsa.Base.{
  refl, some, none, zero, suc, arith, pos, Bytes, ℕ, ◌≡◌, ◌∙◌, ◌<◌, true, ◌*◌, sym, ◌+◌, eq→==,
}
use os_2024_operatingsalsa.Fat32.Layout.{
  Fs, Request, cluster_size, entry_cluster, user_attribute, uattr_not_empty, attribute,
  attr_subdirectory, entry_count,
}
use os_2024_operatingsalsa.Fat32.Cluster.{read_clusters, bytes_to_cluster}
use os_2024_operatingsalsa.Fat32.Cluster.Laws.{read_clusters_lem}
use os_2024_operatingsalsa.Fat32.Alloc.Parent.{IsFolder, is_valid_parent_cluster_iff}
use os_2024_operatingsalsa.Fat32.Directory.Find.{HasName, find_entry-Finds, Finds-first}
use os_2024_operatingsalsa.Fat32.Directory.Same.{SameTable, HasName-same, entry_cluster-same}
use os_2024_operatingsalsa.Fat32.Ops.{
  delete, read_directory, folder_not_empty, delete_entry, read_directory_entry, load_parent,
}
use os_2024_operatingsalsa.Shell.State.{Shell, file_syscall}
use os_2024_operatingsalsa.Shell.Files.{name_request}
use os_2024_operatingsalsa.Shell.Remove.{rm_helper, rm_children, entry_name}
use os_2024_operatingsalsa.Fat32.Directory.{find_entry}
use os_2024_operatingsalsa.Fat32.Alloc.{is_valid_parent_cluster}

-- The table of a folder as it is read over what the stack holds.
abbrev pub table_of : Bytes → Fs → ℕ → Bytes
table_of m fs c = read_clusters fs.storage m 0 c 1

abbrev pub up_request : Bytes → Fs → ℕ → ℕ → Request
up_request garbage fs c size = name_request (entry_name (table_of garbage fs c) 1) c size

-- A folder that is its own parent, as the root is, and that is not empty: its entry 1 is in use, has
-- another name than entry 0, and leads back to it.
pub record IsOwnParent (garbage : Bytes) (c : ℕ) (fs : Fs) : Type 0 where
  pub folder : IsFolder fs c
  pub other : ¬ HasName (up_request garbage fs c 0) (table_of garbage fs c) 0
  pub up : entry_cluster (table_of garbage fs c) 1 ≡ c
  pub used : user_attribute (table_of garbage fs c) 1 ≡ uattr_not_empty
  pub full : folder_not_empty garbage fs c ≡ true

one_cluster : bytes_to_cluster 2048 ≡ 1
unfolding bytes_to_cluster
one_cluster = refl

module _ (garbage : Bytes) (c : ℕ) (fs : Fs) (own : IsOwnParent garbage c fs) (size : ℕ) where
  table_byte :
      (m : Bytes) (x : ℕ) → x < cluster_size → table_of m fs c x ≡ fs.storage (cluster_size * c + x)
  table_byte m x h = ground (arith, read_clusters_lem fs.storage m 0 c 1 x, own.folder.upper)

  SameTable-of : (m m1 : Bytes) → SameTable (table_of m fs c) (table_of m1 fs c)
  SameTable-of m m1 x h = table_byte m x h ∙ sym (table_byte m1 x h)

  is_valid : is_valid_parent_cluster garbage fs c ≡ true
  is_valid = (is_valid_parent_cluster_iff garbage fs c).1 own.folder

  HasName-up : (m : Bytes) → HasName (up_request garbage fs c size) (table_of m fs c) 1
  HasName-up m =
      HasName-same (table_of garbage fs c) (table_of m fs c) (SameTable-of garbage m) 1
        (omega arith) (up_request garbage fs c size)
        (record { name = λ k h. let z : 0 + k ≡ k = omega arith in rw z refl; ext = λ k h. refl })

  not_first : (m : Bytes) → ¬ HasName (up_request garbage fs c size) (table_of m fs c) 0
  not_first m v =
      let w =
        HasName-same (table_of m fs c) (table_of garbage fs c) (SameTable-of m garbage) 0
          (omega arith) (up_request garbage fs c size) v in
      own.other (record { name = w.name; ext = w.ext })

  none_before :
      (m : Bytes) (k : ℕ) → k < 1 → ¬ HasName (up_request garbage fs c size) (table_of m fs c) k
  none_before m k h = let z : k ≡ 0 = omega arith in rw z (not_first m)

  found : (m : Bytes) → find_entry (up_request garbage fs c size) (table_of m fs c) ≡ some 1
  found m =
      Finds-first (up_request garbage fs c size) (table_of m fs c) 0 entry_count 1 (omega arith)
        (omega arith) (HasName-up m) (λ k p q. none_before m k q) (find_entry-Finds _ _)

  is_folder : (m : Bytes) → attribute (table_of m fs c) 1 ≡ attr_subdirectory
  is_folder m = table_byte m 43 (omega arith) ∙ own.folder.parent

  delete-up : delete garbage (up_request garbage fs c size) fs ≡ some (pos 2, fs)
  unfolding delete delete_entry
  delete-up = rw (is_valid, found garbage, eq→== _ _ (is_folder garbage), own.up, own.full) refl

  abbrev after_read : Fs
  after_read = record fs {
    dir_table_buf = table_of fs.dir_table_buf fs c;
    ram = table_of fs.ram fs c;
  }

  read_directory-up :
      size ≡ 2048
      → read_directory garbage (up_request garbage fs c size) fs ≡ some (pos 0, after_read)
  unfolding read_directory read_directory_entry load_parent
  read_directory-up e =
      let up : entry_cluster (table_of fs.dir_table_buf fs c) 1 ≡ c =
        entry_cluster-same _ _ (SameTable-of fs.dir_table_buf garbage) 1 (omega arith) ∙ own.up in
      rw
        (
          is_valid,
          found fs.dir_table_buf,
          eq→== _ _ (is_folder fs.dir_table_buf),
          up,
          e,
          one_cluster,
        )
        refl

module _ (garbage : Bytes) (c : ℕ) where
  IsOwnParent-buffers :
      (fs : Fs) (table ram : Bytes)
      → IsOwnParent garbage c fs
      → IsOwnParent garbage c (record fs { dir_table_buf = table; ram = ram })
  unfolding folder_not_empty
  IsOwnParent-buffers fs table ram own = record {
    folder = record {
      lower = own.folder.lower;
      upper = own.folder.upper;
      last = own.folder.last;
      self = own.folder.self;
      parent = own.folder.parent;
    };
    other = own.other;
    up = own.up;
    used = own.used;
    full = own.full;
  }

  -- For a folder that is its own parent and not empty, `rmHelper` of its entry 1, with the folder as the
  -- parent and as the folder to delete, does not return, however deep the recursion may go.
  pub rm_helper-endless :
      (fuel : ℕ) (s : Shell)
      → IsOwnParent garbage c s.system.files
      → rm_helper fuel garbage (entry_name (table_of garbage s.system.files c) 1) c c s ≡ none
  unfolding rm_helper rm_children file_syscall
  rm_helper-endless zero s own = refl
  rm_helper-endless (suc fuel) s own =
      let fs = record s.system.files { ram = garbage } in
      let own1 = IsOwnParent-buffers s.system.files s.system.files.dir_table_buf garbage own in
      let table = table_of s.system.files.dir_table_buf s.system.files c in
      let s1 = record s {
        system = record s.system { files = record s.system.files { dir_table_buf = table } };
      } in
      let own2 = IsOwnParent-buffers s.system.files table s.system.files.ram own in
      rw
        (
          delete-up garbage c fs own1 0,
          read_directory-up garbage c fs own1 2048 refl,
          own.used,
          own.up,
          rm_helper-endless fuel s1 own2,
        )
        refl
