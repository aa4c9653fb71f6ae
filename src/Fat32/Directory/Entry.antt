-- ===== src/Fat32/Directory/Entry.antt =====
-- What `insert_directory` leaves in a table: the new entry field by field, and all other entries.
use os_2024_operatingsalsa.Base.{
  ℕ, ◌+◌, ◌-◌, ◌≤◌, ◌≡◌, if◌then◌else◌, ltb, Bytes, arith, store16, u16, store32, bit_and, load32,
  ◌<◌, ◌⊎◌, load16, u8, ◌%◌, ap, ◌/◌, ◌^◌,
}
use os_2024_operatingsalsa.StringOps.{memset, memcpy, strlen}
use os_2024_operatingsalsa.StringOps.Memory.{in_range, memset_lem, memcpy_lem}
use os_2024_operatingsalsa.Fat32.Layout.{
  entry_at, ext_at, attribute, entry_cluster, filesize, cluster_low, cluster_high,
}
use os_2024_operatingsalsa.Fat32.Directory.{insert_names, insert_directory, user_attribute}
use os_2024_operatingsalsa.Base.Bits.{bit_and-mask, bit_or-shift}

module _ (table : Bytes) (i : ℕ) (names : Bytes) (name : ℕ) (exts : Bytes) (ext : ℕ)
    (a : strlen names name ≤ 13) (b : strlen exts ext ≤ 5) where
  insert_names_lem :
      (x : ℕ)
      → insert_names table i names name exts ext x ≡ (
          if in_range (ext_at i) (strlen exts ext) x
          then exts (ext + (x - ext_at i))
          else if in_range (entry_at i) (strlen names name) x
          then names (name + (x - entry_at i))
          else if in_range (entry_at i) 16 x
          then 0
          else table x)
  unfolding insert_names
  insert_names_lem x =
      let t1 = memset table (entry_at i) 0 8 in
      let t2 = memset t1 (ext_at i) 0 8 in
      let t3 = memcpy t2 (entry_at i) names name (strlen names name) in
      ground (
        arith,
        memcpy_lem t3 (ext_at i) exts ext (strlen exts ext) x,
        memcpy_lem t2 (entry_at i) names name (strlen names name) x,
        memset_lem t1 (ext_at i) 0 8 x,
        memset_lem table (entry_at i) 0 8 x,
      )

  module _ (attr uattr cluster size : ℕ) where
    abbrev inserted : Bytes
    inserted = insert_directory table i names name exts ext attr uattr cluster size

    low : u16 (bit_and (u8 cluster) 0xFFFF) ≡ cluster % 256
    low = omega (arith, bit_and-mask 16 (u8 cluster))

    high : u16 (bit_and (u8 cluster / 2 ^ 16) 0xFFFF) ≡ 0
    high = omega (arith, bit_and-mask 16 (u8 cluster / 2 ^ 16))

    -- The first eight bytes are the string `name`, unless the copy of `ext` ran into them.
    pub insert_directory_name :
        (k : ℕ)
        → k < 8
        → inserted (entry_at i + k) ≡ (if ltb k (strlen names name) then names (name + k) else 0)
    unfolding insert_directory store16 store32
    insert_directory_name k h = ground (arith, insert_names_lem (entry_at i + k))

    pub insert_directory_ext :
        (k : ℕ)
        → k < 3
        → inserted (ext_at i + k) ≡ (
            if ltb k (strlen exts ext)
            then exts (ext + k)
            else if ltb (8 + k) (strlen names name)
            then names (name + 8 + k)
            else 0)
    unfolding insert_directory store16 store32
    insert_directory_ext k h = ground (arith, insert_names_lem (ext_at i + k))

    pub insert_directory_attributes :
        (attribute inserted i ≡ u8 attr) × (user_attribute inserted i ≡ u8 uattr)
    unfolding insert_directory store16 store32
    insert_directory_attributes = (ground arith, ground arith)

    pub insert_directory_cluster : entry_cluster inserted i ≡ cluster % 256
    unfolding insert_directory store16 store32 entry_cluster load16
    insert_directory_cluster =
        let lo = ap (λ (t : ℕ). t % 256) low in
        let at_low : cluster_low inserted i ≡ cluster % 256 = ground (arith, low) in
        let at_high : cluster_high inserted i ≡ 0 = ground (arith, high) in
        rw (at_low, at_high) (omega (arith, bit_or-shift 16 (cluster % 256) 0))

    pub insert_directory_size : filesize inserted i ≡ size % 2 ^ 32
    unfolding insert_directory store32 load32
    insert_directory_size = ground arith

    -- No byte outside of the entry changes.
    pub insert_directory_other :
        (x : ℕ) → (x < entry_at i) ⊎ (entry_at i + 32 ≤ x) → inserted x ≡ table x
    unfolding insert_directory store16 store32
    insert_directory_other x h = ground (arith, insert_names_lem x)
