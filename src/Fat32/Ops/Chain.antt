-- ===== src/Fat32/Ops/Chain.antt =====
-- The loops of `write`, `read` and `delete` over the clusters of one file.
use os_2024_operatingsalsa.Base.{
  ℕ, zero, suc, ◌+◌, ◌-◌, ◌*◌, ◌≤◌, ◌<◌, ◌≡◌, refl, ◌≢◌, Array, store, Option, some, if◌then◌else◌,
  ◌==◌, arith, eq→==, ne→==, lt→leb,
}
use os_2024_operatingsalsa.StringOps.Memory.{in_range}
use os_2024_operatingsalsa.Fat32.Layout.{Fs, cluster_size, cluster_map_size, end_of_file}
use os_2024_operatingsalsa.Fat32.Cluster.{read_clusters, write_clusters}
use os_2024_operatingsalsa.Fat32.Cluster.Laws.{read_clusters_lem, write_clusters_lem}
use os_2024_operatingsalsa.Fat32.Ops.{read_chain, write_chain}

-- The entry that links cluster `x` of a file of `n` clusters from `c` on.
abbrev pub link : ℕ → ℕ → ℕ → ℕ
link c n x = if x == (c + n - 1) then end_of_file else x + 1

module _ (c n buf : ℕ) (fits : c + n ≤ cluster_map_size) where
  pub write_chain-same :
      (left k : ℕ) (fs : Fs)
      → ((write_chain left k c n buf fs).ram ≡ fs.ram)
        × ((write_chain left k c n buf fs).dir_table_buf ≡ fs.dir_table_buf)
  unfolding write_chain
  write_chain-same zero k fs = (refl, refl)
  write_chain-same (suc left) k fs = write_chain-same left (k + 1) _

  -- The entries of the run are linked in order, and no other entry changes.
  pub write_chain-map :
      (left k : ℕ) (fs : Fs) (x : ℕ)
      → k + left ≡ n
      → (write_chain left k c n buf fs).cluster_map x
        ≡ (if in_range (c + k) left x then link c n x else fs.cluster_map x)
  unfolding write_chain
  write_chain-map zero k fs x e = ground arith
  write_chain-map (suc left) k fs x e = ground (
    arith,
    write_chain-map left (k + 1)
        (record fs {
          cluster_map = store fs.cluster_map (c + k) (link c n (c + k));
          storage = write_clusters fs.storage fs.ram (buf + cluster_size * k) (c + k) 1;
        })
        x,
  )

  -- The clusters of the run hold the bytes from `buf` on, and no other byte of the disk changes.
  pub write_chain-storage :
      (left k : ℕ) (fs : Fs) (x : ℕ)
      → k + left ≡ n
      → (write_chain left k c n buf fs).storage x ≡ (
          if in_range (cluster_size * (c + k)) (cluster_size * left) x
          then fs.ram (buf + (x - cluster_size * c))
          else fs.storage x)
  unfolding write_chain
  write_chain-storage zero k fs x e = ground arith
  write_chain-storage (suc left) k fs x e = ground (
    arith,
    write_chain-storage left (k + 1)
        (record fs {
          cluster_map = store fs.cluster_map (c + k) (link c n (c + k));
          storage = write_clusters fs.storage fs.ram (buf + cluster_size * k) (c + k) 1;
        })
        x,
    write_clusters_lem fs.storage fs.ram (buf + cluster_size * k) (c + k) 1 x,
  )

-- The state after reading `left` clusters of the disk, the first of them cluster `c + k`, to `buf`.
pub record HasRead (fs : Fs) (buf c k left : ℕ) (o : Option Fs) : Type 0 where
  pub after : Fs
  pub returns : o ≡ some after
  pub bytes :
      (x : ℕ)
      → after.ram x ≡ (
          if in_range (buf + cluster_size * k) (cluster_size * left) x
          then fs.storage (cluster_size * c + (x - buf))
          else fs.ram x)
  pub same_map : after.cluster_map ≡ fs.cluster_map
  pub same_storage : after.storage ≡ fs.storage

module _ (c n buf : ℕ) (fits : c + n ≤ cluster_map_size) where
  abbrev IsLinked : Array ℕ → Type 0
  IsLinked map = (x : ℕ) → c ≤ x → x < c + n → map x ≡ link c n x

  one_read : Fs → ℕ → ℕ → Fs
  one_read fs k j = record fs { ram = read_clusters fs.storage fs.ram (buf + cluster_size * k) j 1 }

  one_read_bytes :
      (fs : Fs) (k j x : ℕ)
      → j ≡ c + k
      → j < cluster_map_size
      → (one_read fs k j).ram x ≡ (
          if in_range (buf + cluster_size * k) cluster_size x
          then fs.storage (cluster_size * c + (x - buf))
          else fs.ram x)
  unfolding one_read
  one_read_bytes fs k j x e h =
      ground (arith, read_clusters_lem fs.storage fs.ram (buf + cluster_size * k) j 1 x)

  HasRead-one :
      (fs : Fs) (k j : ℕ)
      → j ≡ c + k
      → j < cluster_map_size
      → HasRead fs buf c k 1 (some (one_read fs k j))
  unfolding one_read
  HasRead-one fs k j e h = record {
    after = one_read fs k j;
    returns = refl;
    bytes = λ x. one_read_bytes fs k j x e h;
    same_map = refl;
    same_storage = refl;
  }

  HasRead-more :
      (fs : Fs) (left k j : ℕ) (o : Option Fs)
      → j ≡ c + k
      → j < cluster_map_size
      → HasRead (one_read fs k j) buf c (k + 1) left o
      → HasRead fs buf c k (suc left) o
  unfolding one_read
  HasRead-more fs left k j o e h r = record {
    after = r.after;
    returns = r.returns;
    bytes = λ x. ground (arith, r.bytes x, one_read_bytes fs k j x);
    same_map = r.same_map;
    same_storage = r.same_storage;
  }

  -- On a linked run `read` ends at the last cluster and has copied each to its place.
  pub read_chain-HasRead :
      (left fuel k j : ℕ) (fs : Fs)
      → k + suc left ≡ n
      → j ≡ c + k
      → left < fuel
      → IsLinked fs.cluster_map
      → HasRead fs buf c k (suc left) (read_chain fuel fs buf j k)
  unfolding read_chain one_read
  read_chain-HasRead left zero k j fs e f h linked = absurd (omega arith)
  read_chain-HasRead zero (suc fuel) k j fs e f h linked =
      let last : fs.cluster_map j ≡ end_of_file = ground (arith, linked j) in
      rw (lt→leb cluster_map_size j (λ p. omega arith), eq→== _ _ last)
        (HasRead-one fs k j f (omega arith))
  read_chain-HasRead (suc left) (suc fuel) k j fs e f h linked =
      let next : fs.cluster_map j ≡ j + 1 = ground (arith, linked j) in
      let inner : fs.cluster_map j ≢ end_of_file = omega arith in
      rw (lt→leb cluster_map_size j (λ p. omega arith), ne→== _ _ inner, next)
        (HasRead-more fs (suc left) k j _ f (omega arith) (
          read_chain-HasRead left fuel (k + 1) (j + 1) (one_read fs k j) (omega arith) (omega arith)
            (omega arith) linked))
