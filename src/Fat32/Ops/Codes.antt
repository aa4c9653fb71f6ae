-- ===== src/Fat32/Ops/Codes.antt =====
-- When `write` returns which code: every branch with the state that it leaves.
use os_2024_operatingsalsa.Base.{
  ℕ, zero, suc, ◌+◌, ◌≤◌, ◌<◌, ◌≡◌, refl, sym, ◌∙◌, ◌≢◌, ◌⊎◌, inl, inr, Bytes, Array, Option, some,
  none, true, false, arith, ℕ_discrete, eq→==, ne→==, Bool-cases, ◌^◌, pos, ℤ, if◌then◌else◌, ◌==◌,
  minus_one,
}
use mathlib.Core.Bool.{false≢true}
use os_2024_operatingsalsa.Fat32.Layout.{
  Fs, cluster_map_size, empty_entry, Request, entry_count, user_attribute, uattr_not_empty,
}
use os_2024_operatingsalsa.Fat32.Alloc.{is_valid_parent_cluster, first_fit}
use os_2024_operatingsalsa.Fat32.Alloc.Parent.{IsFolder, is_valid_parent_cluster_iff}
use os_2024_operatingsalsa.Fat32.Ops.{
  free_cluster, free_cluster_loop, write, Outcome, write_file, write_folder, free_slot,
  write_file_at, bytes_to_cluster, store_file, store_folder,
}
use os_2024_operatingsalsa.Fat32.Ops.Stored.{parent_table}
use os_2024_operatingsalsa.Fat32.Ops.Written.{
  IsStoredFile, IsMadeFolder, store_file-IsStoredFile, store_folder-IsMadeFolder,
}
use os_2024_operatingsalsa.Fat32.Directory.Find.{
  FreeSlot, HasName, slot, all_used, free_slot-FreeSlot, Finds, hit, miss, find_duplicate-Finds,
}
use os_2024_operatingsalsa.Fat32.Alloc.FirstFit.{IsRun, first_fit-Fits, Fits, full, found}
use os_2024_operatingsalsa.Fat32.Cluster.Laws.{bytes_to_cluster_least}

module _ (g : Bytes) (fs : Fs) (n : ℕ) where
  -- The two answers of `is_valid_parent_cluster`.
  pub IsFolder-cases :
      ((is_valid_parent_cluster g fs n ≡ true) × IsFolder fs n)
      ⊎ ((is_valid_parent_cluster g fs n ≡ false) × (¬ IsFolder fs n))
  IsFolder-cases = elim (Bool-cases (is_valid_parent_cluster g fs n)) [
    | inl e ↦ inl (e, (is_valid_parent_cluster_iff g fs n).0 e)
    | inr e ↦ inr (e, λ v. false≢true (sym e ∙ (is_valid_parent_cluster_iff g fs n).1 v))
  ]

-- What the search for an empty cluster finds: the first from `lo` on, or none.
data FreeCluster (map : Array ℕ) (lo : ℕ) (o : Option ℕ) : Type 0 where
  cluster :
      (j : ℕ)
      → o ≡ some j
      → lo ≤ j
      → j < cluster_map_size
      → map j ≡ empty_entry
      → ((k : ℕ) → lo ≤ k → k < j → map k ≢ empty_entry)
      → FreeCluster map lo o
  all_taken :
      o ≡ none
      → ((k : ℕ) → lo ≤ k → k < cluster_map_size → map k ≢ empty_entry)
      → FreeCluster map lo o

module _ (map : Array ℕ) where
  taken_from :
      (lo hi : ℕ)
      → map lo ≢ empty_entry
      → ((k : ℕ) → lo + 1 ≤ k → k < hi → map k ≢ empty_entry)
      → (k : ℕ) → lo ≤ k
      → k < hi
      → map k ≢ empty_entry
  taken_from lo hi u h k p q = elim (ℕ_discrete k lo) [
    | yes e ↦ rw e u
    | no ne ↦ h k (omega arith) q
  ]

  FreeCluster-next :
      (lo : ℕ) (o : Option ℕ)
      → map lo ≢ empty_entry
      → FreeCluster map (lo + 1) o
      → FreeCluster map lo o
  FreeCluster-next lo o u (cluster j e p q z h) =
      cluster j e (omega arith) q z (taken_from lo j u h)
  FreeCluster-next lo o u (all_taken e h) = all_taken e (taken_from lo cluster_map_size u h)

  FreeCluster-loop :
      (left i : ℕ) → i + left ≡ cluster_map_size → FreeCluster map i (free_cluster_loop left i map)
  unfolding free_cluster_loop
  FreeCluster-loop zero i e = all_taken refl (λ k p q. absurd (omega arith))
  FreeCluster-loop (suc left) i e = elim (ℕ_discrete (map i) empty_entry) [
    | yes z ↦
        rw (eq→== _ _ z)
          (cluster i refl (omega arith) (omega arith) z (λ k p q. absurd (omega arith)))
    | no z ↦ rw (ne→== _ _ z) (FreeCluster-next i _ z (FreeCluster-loop left (i + 1) (omega arith)))
  ]

  free_cluster-FreeCluster : FreeCluster map 3 (free_cluster map)
  unfolding free_cluster
  free_cluster-FreeCluster = FreeCluster-loop 509 3 (omega arith)

-- No entry from 1 on has the name of the request.
abbrev pub IsFresh : Request → Bytes → Type 0
IsFresh r table = (k : ℕ) → 1 ≤ k → k < entry_count → ¬ HasName r table k

-- What `write` does: its code and the state it leaves, or the access outside of an array.
pub data Wrote (g : Bytes) (r : Request) (fs : Fs) (o : Outcome) : Type 0 where
  bad_parent : ¬ IsFolder fs r.parent_cluster_number → o ≡ some (pos 2, fs) → Wrote g r fs o
  exists :
      IsFolder fs r.parent_cluster_number
      → (k : ℕ) → 1 ≤ k
      → k < entry_count
      → HasName r (parent_table g r fs) k
      → o ≡ some (pos 1, fs)
      → Wrote g r fs o
  no_space :
      IsFolder fs r.parent_cluster_number
      → IsFresh r (parent_table g r fs)
      → 0 < r.buffer_size
      → ((j : ℕ) → 3 ≤ j → ¬ IsRun fs.cluster_map (bytes_to_cluster r.buffer_size) j)
      → o ≡ some (minus_one, fs)
      → Wrote g r fs o
  file :
      IsFolder fs r.parent_cluster_number
      → IsFresh r (parent_table g r fs)
      → 0 < r.buffer_size
      → (c i : ℕ) → 3 ≤ c
      → IsRun fs.cluster_map (bytes_to_cluster r.buffer_size) c
      → 2 ≤ i
      → i < entry_count
      → user_attribute (parent_table g r fs) i ≢ uattr_not_empty
      → o ≡ some (pos 0, store_file r (parent_table g r fs) c i fs)
      → IsStoredFile r fs (store_file r (parent_table g r fs) c i fs) c i
      → Wrote g r fs o
  folder :
      IsFolder fs r.parent_cluster_number
      → IsFresh r (parent_table g r fs)
      → r.buffer_size ≡ 0
      → (c i : ℕ) → 3 ≤ c
      → c < cluster_map_size
      → fs.cluster_map c ≡ empty_entry
      → 2 ≤ i
      → i < entry_count
      → user_attribute (parent_table g r fs) i ≢ uattr_not_empty
      → o ≡ some (pos 0, store_folder g r (parent_table g r fs) c i fs)
      → IsMadeFolder r fs (store_folder g r (parent_table g r fs) c i fs) c i
      → Wrote g r fs o
  overrun :
      IsFolder fs r.parent_cluster_number
      → IsFresh r (parent_table g r fs)
      → ((k : ℕ)
          → 2 ≤ k
          → k < entry_count
          → user_attribute (parent_table g r fs) k ≡ uattr_not_empty)
        ⊎ ((r.buffer_size ≡ 0)
            × ((k : ℕ) → 3 ≤ k → k < cluster_map_size → fs.cluster_map k ≢ empty_entry))
      → o ≡ none
      → Wrote g r fs o

module _ (g : Bytes) (r : Request) (fs : Fs) where
  abbrev t : Bytes
  t = parent_table g r fs

  file_Wrote :
      IsFolder fs r.parent_cluster_number
      → IsFresh r t
      → 0 < r.buffer_size
      → r.buffer_size < 2 ^ 32
      → {z : ℤ} → z ≡ first_fit fs.cluster_map (bytes_to_cluster r.buffer_size)
      → Fits fs.cluster_map (bytes_to_cluster r.buffer_size) 3 z
      → Wrote g r fs (write_file r t fs)
  unfolding write_file write_file_at
  file_Wrote v u p q w (full e never) = no_space v u p never (rw (sym w ∙ e, write_file))
  file_Wrote v u p q w (found zero e lo run least) = absurd (omega arith)
  file_Wrote v u p q w (found (suc c) e lo run least) = go (free_slot-FreeSlot t)
    where
      at : write_file r t fs ≡ write_file_at r t (suc c) fs
      at = rw (sym w ∙ e, write_file)

      go : FreeSlot t 2 entry_count (free_slot t) → Wrote g r fs (write_file r t fs)
      go (slot i s a b w h) =
          file v u p (suc c) i lo run a b w (at ∙ rw (s, write_file_at))
            (store_file-IsStoredFile g r fs v p q (suc c) i lo run b)
      go (all_used s h) = overrun v u (inl h) (at ∙ rw (s, write_file_at))

  folder_Wrote :
      IsFolder fs r.parent_cluster_number
      → IsFresh r t
      → r.buffer_size ≡ 0
      → Wrote g r fs (write_folder g r t fs)
  unfolding write_folder
  folder_Wrote v u z = go (free_cluster-FreeCluster fs.cluster_map) (free_slot-FreeSlot t)
    where
      go :
          FreeCluster fs.cluster_map 3 (free_cluster fs.cluster_map)
          → FreeSlot t 2 entry_count (free_slot t)
          → Wrote g r fs (write_folder g r t fs)
      go (all_taken e h) s = overrun v u (inr (z, h)) (rw (e, write_folder))
      go (cluster c e lo hi w least) (slot i s a b n h) =
          folder v u z c i lo hi w a b n (rw (e, s, write_folder)) (
            store_folder-IsMadeFolder g r fs c i (record {
              folder = v;
              no_bytes = z;
              fresh = u;
              place = e;
              place_inside = (lo, hi, w);
              room = s;
              room_inside = (a, b);
            }))
      go (cluster c e lo hi w least) (all_used s h) = overrun v u (inl h) (rw (e, s, write_folder))

  -- Every branch of `write` for a size below 2^32: 2 and nothing changed exactly where the parent is no
  -- folder; else 1 and nothing changed exactly where an entry from 1 on has the name. For a folder as
  -- parent and a name that no entry from 1 on has: -1 and nothing changed where no run of clusters is
  -- long enough; an access outside of an array where no entry, or for a folder no cluster, is free; and
  -- else 0 with the file or the folder stored in empty clusters and a free entry. The clusters of a file
  -- are then linked in order and hold its bytes, and its entry holds its size and its first cluster modulo 256. A new
  -- folder and its parent are valid folders. The table of clusters is on the disk, and no other entry of
  -- it has changed.
  pub write-Wrote : r.buffer_size < 2 ^ 32 → Wrote g r fs (write g r fs)
  unfolding write
  write-Wrote small = elim (IsFolder-cases g fs r.parent_cluster_number) [
    | inr (e, n) ↦ bad_parent n (rw e)
    | inl (e, v) ↦ rw e (named v (find_duplicate-Finds r t))
  ]
    where
      rest : Outcome
      rest = if r.buffer_size == 0 then write_folder g r t fs else write_file r t fs

      sized : IsFolder fs r.parent_cluster_number → IsFresh r t → Wrote g r fs rest
      sized v u = elim (ℕ_discrete r.buffer_size 0) [
        | yes z ↦ rw (eq→== _ _ z) (folder_Wrote v u z)
        | no z ↦ rw (ne→== _ _ z) (
            file_Wrote v u (omega arith) small refl (
              first_fit-Fits fs.cluster_map (bytes_to_cluster r.buffer_size)
                (omega (arith, bytes_to_cluster_least r.buffer_size small))))
      ]

      named :
          {o : Option ℕ}
          → IsFolder fs r.parent_cluster_number
          → Finds r t 1 entry_count o
          → Wrote g r fs (elim o [ some i ↦ some (pos 1, fs) | none ↦ rest ])
      named v (hit k e lo hi w least) = exists v k lo hi w (rw e)
      named v (miss e never) = rw e (sized v never)
