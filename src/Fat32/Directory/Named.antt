-- ===== src/Fat32/Directory/Named.antt =====
-- An entry that `insert_directory` makes from a request carries the request's name.
use os_2024_operatingsalsa.Base.{
  ℕ, ◌+◌, ◌≤◌, ◌<◌, ◌≡◌, refl, Bytes, chars, [], arith, dec_lt, lt→ltb, le→ltb, sym, byte_of, ◌∙◌,
  if◌then◌else◌, ltb,
}
use os_2024_operatingsalsa.StringOps.{strlen}
use os_2024_operatingsalsa.StringOps.Length.{IsString, strlen-IsString, strlen_lem}
use os_2024_operatingsalsa.Fat32.Layout.{Request, packed, name_at, request_ext_at}
use os_2024_operatingsalsa.Fat32.Directory.{insert_directory}
use os_2024_operatingsalsa.Fat32.Directory.Entry.{insert_directory_name, insert_directory_ext}
use os_2024_operatingsalsa.Fat32.Directory.Find.{HasName, packed_name, packed_ext}

-- Behind its first zero a name holds zeros only, and so does an extension.
pub record IsPadded (r : Request) : Type 0 where
  pub name : (j k : ℕ) → j ≤ k → k < 8 → r.name j ≡ 0 → r.name k ≡ 0
  pub ext : (j k : ℕ) → j ≤ k → k < 3 → r.ext j ≡ 0 → r.ext k ≡ 0

module _ (r : Request) (small : r.parent_cluster_number < 512) where
  zero_byte : packed r 17 ≡ 0
  unfolding packed byte_of
  zero_byte = ground arith

  -- Of a name or an extension without room for a terminator `strlen` counts on into the fields
  -- behind, and ends at the third byte of the parent's number at the latest.
  pub packed-name-IsString :
      IsString (packed r) name_at (strlen (packed r) name_at) × (strlen (packed r) name_at ≤ 13)
  packed-name-IsString = strlen-IsString (packed r) name_at 13 zero_byte (omega arith)

  pub packed-ext-IsString :
      IsString (packed r) request_ext_at (strlen (packed r) request_ext_at)
      × (strlen (packed r) request_ext_at ≤ 5)
  packed-ext-IsString = strlen-IsString (packed r) request_ext_at 5 zero_byte (omega arith)

pub chars-nil-strlen : strlen (chars []) 0 ≡ 0
unfolding chars
chars-nil-strlen =
    strlen_lem (chars []) 0 0 (record { inside = λ j h. elim h [ ]; terminator = refl })
      (omega arith)

module _ (r : Request) (padded : IsPadded r) (small : r.parent_cluster_number < 512) where
  name_or_zero :
      (k : ℕ)
      → k < 8
      → (if ltb k (strlen (packed r) name_at) then packed r (name_at + k) else 0) ≡ r.name k
  name_or_zero k h = elim (dec_lt k (strlen (packed r) name_at)) [
    | yes p ↦ rw (lt→ltb _ _ p) (packed_name r k h)
    | no p ↦
        let (s, _) = packed-name-IsString r small in
        let L = strlen (packed r) name_at in
        rw (le→ltb k L (omega arith)) (
          sym
            (padded.name L k (omega arith) h (sym (packed_name r L (omega arith)) ∙ s.terminator)))
  ]

  ext_or_zero :
      (k : ℕ)
      → k < 3
      → (if ltb k (strlen (packed r) request_ext_at) then packed r (request_ext_at + k) else 0)
        ≡ r.ext k
  ext_or_zero k h = elim (dec_lt k (strlen (packed r) request_ext_at)) [
    | yes p ↦ rw (lt→ltb _ _ p) (packed_ext r k h)
    | no p ↦
        let (s, _) = packed-ext-IsString r small in
        let L = strlen (packed r) request_ext_at in
        rw (le→ltb k L (omega arith))
          (sym (padded.ext L k (omega arith) h (sym (packed_ext r L (omega arith)) ∙ s.terminator)))
  ]

  module _ (table : Bytes) (i attr uattr cluster size : ℕ) where
    -- Names of eight and extensions of three bytes included, a file's entry has the request's name.
    pub insert_directory-HasName :
        HasName r
          (insert_directory table i
            (packed r)
            name_at
            (packed r)
            request_ext_at
            attr
            uattr
            cluster
            size)
          i
    insert_directory-HasName =
        let a = (packed-name-IsString r small).1 in
        let b = (packed-ext-IsString r small).1 in
        record {
          name = λ k h. sym (
              insert_directory_name table i (packed r) name_at (packed r) request_ext_at a b attr
                uattr cluster size k h
              ∙ name_or_zero k h);
          ext = λ k h. ground (
            arith,
            insert_directory_ext table i (packed r) name_at (packed r) request_ext_at a b attr uattr
                cluster size k h,
            ext_or_zero k h,
            packed_ext r k h,
          );
        }

    -- So has a folder's, for a request with no extension.
    pub insert_directory-folder-HasName :
        ((k : ℕ) → k < 3 → r.ext k ≡ 0)
        → HasName r
            (insert_directory table i (packed r) name_at (chars []) 0 attr uattr cluster size)
            i
    insert_directory-folder-HasName none =
        let a = (packed-name-IsString r small).1 in
        let b : strlen (chars []) 0 ≤ 5 = omega (arith, chars-nil-strlen) in
        record {
          name = λ k h. sym (
              insert_directory_name table i (packed r) name_at (chars []) 0 a b attr uattr cluster
                size k h
              ∙ name_or_zero k h);
          ext = λ k h. ground (
            arith,
            insert_directory_ext table i (packed r) name_at (chars []) 0 a b attr uattr cluster size
                k h,
            chars-nil-strlen,
            packed_ext r k h,
            none k h,
          );
        }
