-- ===== src/Fat32/Directory/Same.antt =====
-- Two tables that agree on the 2048 bytes of a cluster have the same entries.
use os_2024_operatingsalsa.Base.{ℕ, ◌+◌, ◌<◌, ◌≡◌, ◌∙◌, Bytes, load16, load32, arith}
use os_2024_operatingsalsa.Fat32.Layout.{
  Request, entry_at, ext_at, filesize, entry_cluster, cluster_size,
}
use os_2024_operatingsalsa.Fat32.Directory.Find.{HasName}

abbrev pub SameTable : Bytes → Bytes → Type 0
SameTable s t = (x : ℕ) → x < cluster_size → s x ≡ t x

module _ (s t : Bytes) (same : SameTable s t) (i : ℕ) (inside : i < 64) where
  pub HasName-same : (r : Request) → HasName r s i → HasName r t i
  HasName-same r v = record {
    name = λ k h. v.name k h ∙ same (entry_at i + k) (omega arith);
    ext = λ k h. v.ext k h ∙ same (ext_at i + k) (omega arith);
  }

  pub entry_cluster-same : entry_cluster s i ≡ entry_cluster t i
  unfolding entry_cluster load16
  entry_cluster-same = rw (
    same (entry_at i + 20) (omega arith),
    same (entry_at i + 20 + 1) (omega arith),
    same (entry_at i + 26) (omega arith),
    same (entry_at i + 26 + 1) (omega arith),
  )

  pub filesize-same : filesize s i ≡ filesize t i
  unfolding load32
  filesize-same = rw (
    same (entry_at i + 28) (omega arith),
    same (entry_at i + 28 + 1) (omega arith),
    same (entry_at i + 28 + 2) (omega arith),
    same (entry_at i + 28 + 3) (omega arith),
  )
