-- ===== src/Fat32/Directory/Find.antt =====
-- What the scans of a directory table decide.
use os_2024_operatingsalsa.Base.{
  ℕ, zero, suc, ◌+◌, ◌≤◌, ◌<◌, ◌≡◌, refl, ◌≢◌, ◌⊎◌, inl, inr, ◌↔◌, Bytes, true, false, Option, none,
  some, arith, Bool-cases, and-cases, ℕ_discrete, eq→==, ne→==, is_zero, sym, dec_lt, ◌∙◌, ap,
}
use os_2024_operatingsalsa.StringOps.{memcmp}
use os_2024_operatingsalsa.StringOps.Compare.{memcmp-eq_zero, Agree}
use mathlib.Core.Bool.{false≢true}
use os_2024_operatingsalsa.Fat32.Layout.{
  Request, packed, name_at, request_ext_at, entry_at, ext_at, entry_count, user_attribute,
  uattr_not_empty,
}
use os_2024_operatingsalsa.Fat32.Directory.{
  entry_matches, find_loop, find_entry, find_duplicate, slot_loop, free_slot,
}

-- Entry `i` has the request's eight bytes of name and three of extension.
pub record HasName (r : Request) (table : Bytes) (i : ℕ) : Type 0 where
  pub name : (k : ℕ) → k < 8 → r.name k ≡ table (entry_at i + k)
  pub ext : (k : ℕ) → k < 3 → r.ext k ≡ table (ext_at i + k)

pub packed_name : (r : Request) (k : ℕ) → k < 8 → packed r (name_at + k) ≡ r.name k
unfolding packed
packed_name r k h = ground arith

pub packed_ext : (r : Request) (k : ℕ) → k < 3 → packed r (request_ext_at + k) ≡ r.ext k
unfolding packed
packed_ext r k h = ground arith

module _ (r : Request) (table : Bytes) where
  -- The comparison of the operations holds exactly if the entry has the request's name.
  pub entry_matches_iff : (i : ℕ) → (entry_matches r table i ≡ true) ↔ HasName r table i
  unfolding entry_matches
  entry_matches_iff i = (to, from)
    where
      names :
          (is_zero (memcmp (packed r) name_at table (entry_at i) 8) ≡ true)
          ↔ Agree (packed r) name_at table (entry_at i) 0 8
      names = memcmp-eq_zero (packed r) name_at table (entry_at i) 8

      exts :
          (is_zero (memcmp (packed r) request_ext_at table (ext_at i) 3) ≡ true)
          ↔ Agree (packed r) request_ext_at table (ext_at i) 0 3
      exts = memcmp-eq_zero (packed r) request_ext_at table (ext_at i) 3

      to : entry_matches r table i ≡ true → HasName r table i
      to e =
          let (p, q) = and-cases _ _ e in
          record {
            name = λ k h. sym (packed_name r k h) ∙ names.0 p k (omega arith) h;
            ext = λ k h. sym (packed_ext r k h) ∙ exts.0 q k (omega arith) h;
          }

      from : HasName r table i → entry_matches r table i ≡ true
      from v =
          let p = names.1 (λ k _ h. packed_name r k h ∙ v.name k h) in
          let q = exts.1 (λ k _ h. packed_ext r k h ∙ v.ext k h) in rw (p, q)

  pub HasName-dec : (i : ℕ) → HasName r table i ⊎ (¬ HasName r table i)
  HasName-dec i = elim (Bool-cases (entry_matches r table i)) [
    | inl e ↦ inl ((entry_matches_iff i).0 e)
    | inr e ↦ inr (λ v. false≢true (sym e ∙ (entry_matches_iff i).1 v))
  ]

  matches_false : (i : ℕ) → ¬ HasName r table i → entry_matches r table i ≡ false
  matches_false i n = elim (Bool-cases (entry_matches r table i)) [
    | inl e ↦ absurd (n ((entry_matches_iff i).0 e))
    | inr e ↦ e
  ]

  -- What a scan of the entries `lo .. hi` finds: the first that has the name, or none.
  pub data Finds (lo hi : ℕ) (o : Option ℕ) : Type 0 where
    hit :
        (j : ℕ)
        → o ≡ some j
        → lo ≤ j
        → j < hi
        → HasName r table j
        → ((k : ℕ) → lo ≤ k → k < j → ¬ HasName r table k)
        → Finds lo hi o
    miss : o ≡ none → ((k : ℕ) → lo ≤ k → k < hi → ¬ HasName r table k) → Finds lo hi o

  none_from :
      (lo hi : ℕ)
      → ¬ HasName r table lo
      → ((k : ℕ) → lo + 1 ≤ k → k < hi → ¬ HasName r table k)
      → (k : ℕ) → lo ≤ k
      → k < hi
      → ¬ HasName r table k
  none_from lo hi n h k p q = elim (ℕ_discrete k lo) [
    | yes e ↦ rw e n
    | no ne ↦ h k (omega arith) q
  ]

  Finds-next :
      (lo hi : ℕ) (o : Option ℕ) → ¬ HasName r table lo → Finds (lo + 1) hi o → Finds lo hi o
  Finds-next lo hi o n (hit j e p q v h) = hit j e (omega arith) q v (none_from lo j n h)
  Finds-next lo hi o n (miss e h) = miss e (none_from lo hi n h)

  Finds-loop : (left i hi : ℕ) → i + left ≡ hi → Finds i hi (find_loop left i r table)
  unfolding find_loop
  Finds-loop zero i hi e = miss refl (λ k p q. absurd (omega arith))
  Finds-loop (suc left) i hi e = elim (HasName-dec i) [
    | inl v ↦
        rw ((entry_matches_iff i).1 v)
          (hit i refl (omega arith) (omega arith) v (λ k p q. absurd (omega arith)))
    | inr n ↦
        rw (matches_false i n) (Finds-next i hi _ n (Finds-loop left (i + 1) hi (omega arith)))
  ]

  pub find_entry-Finds : Finds 0 entry_count (find_entry r table)
  unfolding find_entry
  find_entry-Finds = Finds-loop entry_count 0 entry_count (omega arith)

  pub find_duplicate-Finds : Finds 1 entry_count (find_duplicate r table)
  unfolding find_duplicate
  find_duplicate-Finds = Finds-loop 63 1 entry_count (omega arith)

  -- The first entry with the name is the one that is found.
  pub Finds-first :
      (lo hi j : ℕ) {o : Option ℕ}
      → lo ≤ j
      → j < hi
      → HasName r table j
      → ((k : ℕ) → lo ≤ k → k < j → ¬ HasName r table k)
      → Finds lo hi o
      → o ≡ some j
  Finds-first lo hi j p q v h (miss e never) = absurd (never j p q v)
  Finds-first lo hi j p q v h (hit i e a b w least) = elim (dec_lt i j) [
    | yes c ↦ absurd (h i a c w)
    | no c ↦ elim (dec_lt j i) [ yes d ↦ absurd (least j p d v) | no d ↦ e ∙ ap some (omega arith) ]
  ]

-- What the search for a free entry of `lo .. hi` finds: the first that is not in use, or none.
pub data FreeSlot (table : Bytes) (lo hi : ℕ) (o : Option ℕ) : Type 0 where
  slot :
      (j : ℕ)
      → o ≡ some j
      → lo ≤ j
      → j < hi
      → user_attribute table j ≢ uattr_not_empty
      → ((k : ℕ) → lo ≤ k → k < j → user_attribute table k ≡ uattr_not_empty)
      → FreeSlot table lo hi o
  all_used :
      o ≡ none
      → ((k : ℕ) → lo ≤ k → k < hi → user_attribute table k ≡ uattr_not_empty)
      → FreeSlot table lo hi o

module _ (table : Bytes) where
  used_from :
      (lo hi : ℕ)
      → user_attribute table lo ≡ uattr_not_empty
      → ((k : ℕ) → lo + 1 ≤ k → k < hi → user_attribute table k ≡ uattr_not_empty)
      → (k : ℕ) → lo ≤ k
      → k < hi
      → user_attribute table k ≡ uattr_not_empty
  used_from lo hi u h k p q = elim (ℕ_discrete k lo) [
    | yes e ↦ rw e u
    | no ne ↦ h k (omega arith) q
  ]

  FreeSlot-next :
      (lo hi : ℕ) (o : Option ℕ)
      → user_attribute table lo ≡ uattr_not_empty
      → FreeSlot table (lo + 1) hi o
      → FreeSlot table lo hi o
  FreeSlot-next lo hi o u (slot j e p q n h) = slot j e (omega arith) q n (used_from lo j u h)
  FreeSlot-next lo hi o u (all_used e h) = all_used e (used_from lo hi u h)

  FreeSlot-loop : (left i hi : ℕ) → i + left ≡ hi → FreeSlot table i hi (slot_loop left i table)
  unfolding slot_loop
  FreeSlot-loop zero i hi e = all_used refl (λ k p q. absurd (omega arith))
  FreeSlot-loop (suc left) i hi e = elim (ℕ_discrete (user_attribute table i) uattr_not_empty) [
    | yes u ↦
        rw (eq→== _ _ u) (FreeSlot-next i hi _ u (FreeSlot-loop left (i + 1) hi (omega arith)))
    | no u ↦
        rw (ne→== _ _ u) (slot i refl (omega arith) (omega arith) u (λ k p q. absurd (omega arith)))
  ]

  -- `write` takes the first entry from 2 on that is not in use, and reads outside of the table
  -- exactly if all of them are in use.
  pub free_slot-FreeSlot : FreeSlot table 2 entry_count (free_slot table)
  unfolding free_slot
  free_slot-FreeSlot = FreeSlot-loop 62 2 entry_count (omega arith)
