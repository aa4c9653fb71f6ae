-- ===== src/Fat32/Ops/Kept.antt =====
-- `read` and `read_directory` of src/filesystem/fat32.c leave the disk alone, and what follows for a chain
-- of calls.
use os_2024_operatingsalsa.Base.{
  true, false, zero, suc, refl, some, none, ◌>>=◌, ◌∙◌, ◌≡◌, Bool, Option, Bytes, ℤ, if◌then◌else◌,
  minus_one, ℕ, Bool-cases, not, ◌+◌, pos, leb, inr, ◌==◌, inl, ltb, ◌*◌,
}
use os_2024_operatingsalsa.Fat32.Layout.{
  Request, Fs, attribute, attr_subdirectory, cluster_map_size, end_of_file, filesize, cluster_size,
}
use os_2024_operatingsalsa.Fat32.Ops.{
  read, read_directory, read_entry, read_chain, read_directory_entry, load_parent, Outcome,
  is_valid_parent_cluster, read_clusters, find_entry,
}

-- The same disk and the same table of clusters.
pub record SameDisk (fs fs1 : Fs) : Type 0 where
  pub storage : fs1.storage ≡ fs.storage
  pub cluster_map : fs1.cluster_map ≡ fs.cluster_map

pub SameDisk-trans : {fs fs1 fs2 : Fs} → SameDisk fs fs1 → SameDisk fs1 fs2 → SameDisk fs fs2
SameDisk-trans a b = record {
  storage = b.storage ∙ a.storage;
  cluster_map = b.cluster_map ∙ a.cluster_map;
}

pub SameDisk-refl : {fs : Fs} → SameDisk fs fs
SameDisk-refl = record { storage = refl; cluster_map = refl }

-- A result, where there is one, has the disk of `fs`; `files` finds it in the result.
abbrev pub Keeps {ℓ} : {A : Type ℓ} → (A → Fs) → Fs → Option A → Type 0
Keeps files fs none = Unit
Keeps files fs (some a) = SameDisk fs (files a)

module _ {ℓ ℓ'} {A : Type ℓ} {B : Type ℓ'} (f : A → Fs) (g : B → Fs) (fs : Fs) where
  pub Keeps-bind :
      (o : Option A) (k : A → Option B)
      → Keeps f fs o
      → ((a : A) → SameDisk fs (f a) → Keeps g fs (k a))
      → Keeps g fs (o >>= k)
  Keeps-bind none k h next = tt
  Keeps-bind (some a) k h next = next a h

module _ {ℓ} {A : Type ℓ} (f : A → Fs) (fs : Fs) where
  pub Keeps-if :
      (b : Bool) (o o1 : Option A) → Keeps f fs o → Keeps f fs o1 → Keeps f fs (if b then o else o1)
  Keeps-if true o o1 h h1 = h
  Keeps-if false o o1 h h1 = h1

  pub Keeps-same : {fs0 : Fs} (o : Option A) → SameDisk fs0 fs → Keeps f fs o → Keeps f fs0 o
  Keeps-same none s h = tt
  Keeps-same (some a) s h = SameDisk-trans s h

abbrev pub outcome_files : ℤ × Fs → Fs
outcome_files r = r.1

read_chain-Keeps :
    (fuel : ℕ) (fs : Fs) (buf j k : ℕ) → Keeps (λ x. x) fs (read_chain fuel fs buf j k)
unfolding read_chain
read_chain-Keeps zero fs buf j k = tt
read_chain-Keeps (suc fuel) fs buf j k =
    let fs1 = record fs { ram = read_clusters fs.storage fs.ram (buf + cluster_size * k) j 1 } in
    let rest = read_chain-Keeps fuel fs1 buf (fs.cluster_map j) (k + 1) in
    Keeps-if (λ x. x) fs (leb cluster_map_size j) none _ tt
      (Keeps-if (λ x. x) fs (fs.cluster_map j == end_of_file) (some fs1)
        (read_chain fuel fs1 buf (fs.cluster_map j) (k + 1))
        (record { storage = refl; cluster_map = refl })
        (Keeps-same (λ x. x) fs1 _ (record { storage = refl; cluster_map = refl }) rest))

read_entry-Keeps : (r : Request) (fs : Fs) (i : ℕ) → Keeps outcome_files fs (read_entry r fs i)
unfolding read_entry
read_entry-Keeps r fs i =
    Keeps-if _ fs (attribute fs.dir_table_buf i == attr_subdirectory) (some _) _ SameDisk-refl (
      Keeps-if _ fs (ltb r.buffer_size (filesize fs.dir_table_buf i)) (some _) _ SameDisk-refl (
        Keeps-bind (λ x. x) outcome_files fs _ _ (read_chain-Keeps cluster_map_size fs r.buf _ 0)
          (λ a h. h)))

pub read-Keeps :
    (garbage : Bytes) (r : Request) (fs : Fs) → Keeps outcome_files fs (read garbage r fs)
unfolding read load_parent
read-Keeps garbage r fs =
    Keeps-if _ fs (not (is_valid_parent_cluster garbage fs r.parent_cluster_number)) (some _) _
      SameDisk-refl (go (find_entry r (load_parent r fs).dir_table_buf))
  where
    go :
        (o : Option ℕ)
        → Keeps outcome_files fs (elim o [
          | none ↦ some (pos 3, load_parent r fs)
          | some i ↦ read_entry r (load_parent r fs) i
        ])
    go none = (record { storage = refl; cluster_map = refl })
    go (some i) =
        Keeps-same outcome_files (load_parent r fs) _
          (record { storage = refl; cluster_map = refl }) (read_entry-Keeps r (load_parent r fs) i)

-- The codes of `read_directory`.
pub data IsDirectoryCode : ℤ → Type 0 where
  unknown : IsDirectoryCode minus_one
  done : IsDirectoryCode (pos 0)
  not_folder : IsDirectoryCode (pos 1)
  missing : IsDirectoryCode (pos 2)

-- `read_directory` always returns.
pub record HasReadDirectory (fs : Fs) (o : Outcome) : Type 0 where
  pub code : ℤ
  pub after : Fs
  pub returns : o ≡ some (code, after)
  pub is_code : IsDirectoryCode code
  pub same : SameDisk fs after

pub read_directory-returns :
    (garbage : Bytes) (r : Request) (fs : Fs) → HasReadDirectory fs (read_directory garbage r fs)
unfolding read_directory read_directory_entry load_parent
read_directory-returns garbage r fs =
    elim (Bool-cases (is_valid_parent_cluster garbage fs r.parent_cluster_number)) [
      | inr e ↦ rw e (record {
        code = minus_one;
        after = fs;
        returns = refl;
        is_code = unknown;
        same = SameDisk-refl;
      })
      | inl e ↦ rw e (go (find_entry r (load_parent r fs).dir_table_buf))
    ]
  where
    go_entry : (i : ℕ) → HasReadDirectory fs (read_directory_entry r (load_parent r fs) i)
    go_entry i =
        elim (Bool-cases (attribute (load_parent r fs).dir_table_buf i == attr_subdirectory)) [
          | inl h ↦ rw h (record {
            code = pos 0;
            after = _;
            returns = refl;
            is_code = done;
            same = (record { storage = refl; cluster_map = refl });
          })
          | inr h ↦ rw h (record {
            code = pos 1;
            after = _;
            returns = refl;
            is_code = not_folder;
            same = (record { storage = refl; cluster_map = refl });
          })
        ]

    go :
        (o : Option ℕ)
        → HasReadDirectory fs (elim o [
          | none ↦ some (pos 2, load_parent r fs)
          | some i ↦ read_directory_entry r (load_parent r fs) i
        ])
    go none = record {
      code = pos 2;
      after = load_parent r fs;
      returns = refl;
      is_code = missing;
      same = (record { storage = refl; cluster_map = refl });
    }
    go (some i) = go_entry i
