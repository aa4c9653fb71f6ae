-- ===== src/Fat32/Ops/Freed.antt =====
-- The loop of `delete` over the chain of a file or a folder.
use os_2024_operatingsalsa.Base.{
  ℕ, zero, suc, ◌+◌, ◌/◌, ◌%◌, ◌≤◌, ◌<◌, ◌≡◌, refl, ◌≢◌, Array, Bytes, Bool, true, false, ◌||◌,
  store, count_if, count_if-le, Option, some, List, [], ◌∷◌, if◌then◌else◌, ltb, ◌==◌, arith, eq→==,
  ne→==, lt→leb, subst, length,
}
use os_2024_operatingsalsa.Fat32.Layout.{
  Fs, cluster_size, cluster_map_size, end_of_file, empty_entry,
}
use os_2024_operatingsalsa.Fat32.Cluster.{write_clusters}
use os_2024_operatingsalsa.Fat32.Cluster.Laws.{write_clusters_lem}
use os_2024_operatingsalsa.Fat32.Ops.{free_chain}

abbrev pub member : ℕ → List ℕ → Bool
member x [] = false
member x (y ∷ ys) = (x == y) || member x ys

-- The chain that starts at cluster `j` of a table.
abbrev pub IsChain : Array ℕ → ℕ → List ℕ → Type 0
IsChain map j [] = ⊥
IsChain map j (x ∷ []) = (x ≡ j) × (j < cluster_map_size) × (map j ≡ end_of_file)
IsChain map j (x ∷ y ∷ ys) =
    (x ≡ j) × (j < cluster_map_size) × (map j ≡ y) × (y ≢ end_of_file) × IsChain map y (y ∷ ys)

abbrev pub Distinct : List ℕ → Type 0
Distinct [] = Unit
Distinct (x ∷ xs) = (member x xs ≡ false) × Distinct xs

-- A write to an entry outside of a chain keeps the chain.
IsChain-store :
    (map : Array ℕ) (i v j : ℕ) (xs : List ℕ)
    → member i xs ≡ false
    → IsChain map j xs
    → IsChain (store map i v) j xs
IsChain-store map i v j [] m h = h
IsChain-store map i v j (x ∷ []) m (e, l, z) = (e, l, ground arith)
IsChain-store map i v j (x ∷ y ∷ ys) m (e, l, z, n, h) =
    (e, l, ground arith, n, IsChain-store map i v y (y ∷ ys) (ground arith) h)

count_member :
    (x : ℕ) (xs : List ℕ) (n : ℕ)
    → member x xs ≡ false
    → count_if (λ y. member y (x ∷ xs)) (λ y. y) n
      ≡ count_if (λ y. member y xs) (λ y. y) n + (if ltb x n then 1 else 0)
unfolding count_if
count_member x xs zero m = ground arith
count_member x xs (suc n) m = ground (arith, count_member x xs n)

chain_count :
    (map : Array ℕ) (j : ℕ) (xs : List ℕ)
    → IsChain map j xs
    → Distinct xs
    → length xs ≤ count_if (λ y. member y xs) (λ y. y) cluster_map_size
chain_count map j [] h d = absurd h
chain_count map j (x ∷ []) h d =
    let in_table : ltb x cluster_map_size ≡ true = ground arith in
    let one = count_member x [] cluster_map_size refl in omega (arith, rw in_table at one)
chain_count map j (x ∷ y ∷ ys) (e, l, z, n, h) (new, d) =
    let in_table : ltb x cluster_map_size ≡ true = ground arith in
    let one = count_member x (y ∷ ys) cluster_map_size new in
    omega (arith, rw in_table at one, chain_count map y (y ∷ ys) h d)

-- A chain without a repetition is no longer than the table.
pub length-chain-le :
    (map : Array ℕ) (j : ℕ) (xs : List ℕ)
    → IsChain map j xs
    → Distinct xs
    → length xs ≤ cluster_map_size
length-chain-le map j xs h d =
    omega
      (arith, chain_count map j xs h d, count_if-le (λ y. member y xs) (λ y. y) cluster_map_size)

-- The state after a chain is freed: its entries are empty and its clusters wiped, and nothing else
-- has changed.
pub record HasFreed (wipe : Bytes) (xs : List ℕ) (fs : Fs) (o : Option Fs) : Type 0 where
  pub after : Fs
  pub returns : o ≡ some after
  pub map : (x : ℕ) → after.cluster_map x ≡ (if member x xs then empty_entry else fs.cluster_map x)
  pub storage :
      (x : ℕ)
      → after.storage x
        ≡ (if member (x / cluster_size) xs then wipe (x % cluster_size) else fs.storage x)
  pub same_ram : after.ram ≡ fs.ram
  pub same_buf : after.dir_table_buf ≡ fs.dir_table_buf

module _ (wipe : Bytes) where
  freed : Fs → ℕ → Fs
  freed fs j = record fs {
    cluster_map = store fs.cluster_map j empty_entry;
    storage = write_clusters fs.storage wipe 0 j 1;
  }

  freed_storage :
      (fs : Fs) (j x : ℕ)
      → j < cluster_map_size
      → (freed fs j).storage x
        ≡ (if (x / cluster_size) == j then wipe (x % cluster_size) else fs.storage x)
  unfolding freed
  freed_storage fs j x h = ground (arith, write_clusters_lem fs.storage wipe 0 j 1 x)

  HasFreed-one :
      (fs : Fs) (x j : ℕ)
      → x ≡ j
      → j < cluster_map_size
      → HasFreed wipe (x ∷ []) fs (some (freed fs j))
  unfolding freed
  HasFreed-one fs x j e h = record {
    after = freed fs j;
    returns = refl;
    map = λ y. ground arith;
    storage = λ y. ground (arith, freed_storage fs j y);
    same_ram = refl;
    same_buf = refl;
  }

  HasFreed-more :
      (fs : Fs) (x j y : ℕ) (ys : List ℕ) (o : Option Fs)
      → x ≡ j
      → j < cluster_map_size
      → HasFreed wipe (y ∷ ys) (freed fs j) o
      → HasFreed wipe (x ∷ y ∷ ys) fs o
  unfolding freed
  HasFreed-more fs x j y ys o e h r = record {
    after = r.after;
    returns = r.returns;
    map = λ z. ground (arith, r.map z);
    storage = λ z. ground (arith, r.storage z, freed_storage fs j z);
    same_ram = r.same_ram;
    same_buf = r.same_buf;
  }

  free_chain-HasFreed :
      (fuel : ℕ) (fs : Fs) (j : ℕ) (xs : List ℕ)
      → length xs ≤ fuel
      → IsChain fs.cluster_map j xs
      → Distinct xs
      → HasFreed wipe xs fs (free_chain fuel wipe j fs)
  unfolding free_chain freed
  free_chain-HasFreed fuel fs j [] l h d = absurd h
  free_chain-HasFreed zero fs j (x ∷ xs) l h d = absurd (omega arith)
  free_chain-HasFreed (suc fuel) fs j (x ∷ []) l (e, k, z) d =
      rw (lt→leb cluster_map_size j (λ p. omega arith), eq→== _ _ z) (HasFreed-one fs x j e k)
  free_chain-HasFreed (suc fuel) fs j (x ∷ y ∷ ys) l (e, k, z, n, h) (new, d) =
      let inner : fs.cluster_map j ≢ end_of_file = rw z n in
      let fresh : member j (y ∷ ys) ≡ false = subst (λ q. member q (y ∷ ys) ≡ false) e new in
      rw (lt→leb cluster_map_size j (λ p. omega arith), ne→== _ _ inner, z)
        (HasFreed-more fs x j y ys _ e k (
          free_chain-HasFreed fuel (freed fs j) y (y ∷ ys) (omega arith)
            (IsChain-store fs.cluster_map j empty_entry y (y ∷ ys) fresh h) d))

  -- For a chain without repetition the rounds are enough, and the loop of `delete` frees exactly the
  -- clusters of the chain.
  pub free_chain_lem :
      (fs : Fs) (j : ℕ) (xs : List ℕ)
      → IsChain fs.cluster_map j xs
      → Distinct xs
      → HasFreed wipe xs fs (free_chain (cluster_map_size + 1) wipe j fs)
  free_chain_lem fs j xs h d =
      free_chain-HasFreed (cluster_map_size + 1) fs j xs
        (omega (arith, length-chain-le fs.cluster_map j xs h d)) h d
