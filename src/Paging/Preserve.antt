-- ===== src/Paging/Preserve.antt =====
-- Every call of src/paging.c keeps the invariant of the frames.
use os_2024_operatingsalsa.Base.{
  inl, inr, ℕ, ◌≡◌, ◌<◌, ◌⊎◌, ◌≢◌, ℕ_discrete, arith, count_if, sym, ap, ◌∙◌, subst, count_if-store,
  count_if-le, store, u32, ◌+◌,
}
use mathlib.Core.Bool.{false≢true, false, true, not}
use os_2024_operatingsalsa.Paging.{
  map_frame, page_index, update_page_directory_entry, Paging, page_frame_max_count,
  PageDirectoryEntry, store_entry, zero_entry,
}
use os_2024_operatingsalsa.Paging.Frames.{map_frame-map, map_frame-other, map_frame-entry}
use os_2024_operatingsalsa.Paging.Invariant.{IsConsistent, IsUser, frame_of}

-- A state with the same map whose user entries are all entries of the old one.
pub IsConsistent-restrict :
    (s t : Paging)
    → t.page_frame_map ≡ s.page_frame_map
    → t.free_page_frame_count ≡ s.free_page_frame_count
    → ((d i : ℕ) → IsUser t d i → t.table d i ≡ s.table d i)
    → IsConsistent s
    → IsConsistent t
IsConsistent-restrict s t map count same v = record {
  kernel = rw map v.kernel;
  count = rw (map, count) v.count;
  inside = λ d i u. rw (frame_same d i u) (v.inside d i (old d i u));
  taken = λ d i u. rw (frame_same d i u, map) (v.taken d i (old d i u));
  not_kernel = λ d i u. rw (frame_same d i u) (v.not_kernel d i (old d i u));
  unique = λ d i e j u w h.
      v.unique d i e j (old d i u) (old e j w) (sym (frame_same d i u) ∙ h ∙ frame_same e j w);
}
  where
    old : (d i : ℕ) → IsUser t d i → IsUser s d i
    old d i u = rw (← same d i u) u

    frame_same : (d i : ℕ) → IsUser t d i → frame_of t d i ≡ frame_of s d i
    frame_same d i u = ap (λ (x : PageDirectoryEntry). x.lower_address) (same d i u)

-- Two places in the directories are the same or not.
place-cases : (d k e j : ℕ) → ((d ≡ e) × (k ≡ j)) ⊎ ((d ≢ e) ⊎ (k ≢ j))
place-cases d k e j = elim (ℕ_discrete d e) [
  | no n ↦ inr (inl n)
  | yes p ↦ elim (ℕ_discrete k j) [ yes q ↦ inl (p, q) | no n ↦ inr (inr n) ]
]

module _ (page_dir virtual_addr : ℕ) (s : Paging) (v : IsConsistent s) (i : ℕ)
    (h : i < page_frame_max_count) (z : s.page_frame_map i ≡ false) where
  abbrev at : ℕ
  at = page_index virtual_addr

  abbrev t : Paging
  t = map_frame page_dir virtual_addr i s

  frame_at : frame_of t page_dir at ≡ i
  frame_at = (map_frame-entry page_dir virtual_addr s i h).0

  -- A user entry after the call is the new one, or it was there before.
  new_or_old :
      (d k : ℕ)
      → IsUser t d k
      → ((d ≡ page_dir) × (k ≡ at) × (frame_of t d k ≡ i))
        ⊎ (IsUser s d k × (frame_of t d k ≡ frame_of s d k))
  new_or_old d k u = elim (place-cases d k page_dir at) [
    | inl (p, q) ↦ inl (p, q, rw (p, q) frame_at)
    | inr n ↦
        let same = map_frame-other page_dir virtual_addr s i d k n in
        inr (rw (← same) u, ap (λ (x : PageDirectoryEntry). x.lower_address) same)
  ]

  -- The taken frame is not the frame of an older entry.
  apart : (d k : ℕ) → IsUser s d k → frame_of s d k ≢ i
  apart d k u e = false≢true (sym z ∙ subst (λ x. s.page_frame_map x ≡ true) e (v.taken d k u))

  counted : t.free_page_frame_count ≡ count_if not t.page_frame_map page_frame_max_count
  unfolding map_frame update_page_directory_entry
  counted =
      let change = count_if-store not s.page_frame_map i true page_frame_max_count h in
      let bound = count_if-le not s.page_frame_map page_frame_max_count in
      ground (arith, change, bound, v.count)

  pub IsConsistent-map_frame : IsConsistent t
  IsConsistent-map_frame = record {
    kernel = ground (arith, v.kernel, map_frame-map page_dir virtual_addr s i 0);
    count = counted;
    inside = λ d k u. elim (new_or_old d k u) [
      | inl (p, q, e) ↦ rw e h
      | inr (w, e) ↦ rw e (v.inside d k w)
    ];
    taken = λ d k u. elim (new_or_old d k u) [
      | inl (p, q, e) ↦ ground (arith, e, map_frame-map page_dir virtual_addr s i (frame_of t d k))
      | inr (w, e) ↦
          let old = v.taken d k w in
          ground (arith, e, old, map_frame-map page_dir virtual_addr s i (frame_of t d k))
    ];
    not_kernel = λ d k u. elim (new_or_old d k u) [
      | inl (p, q, e) ↦
          λ n. false≢true (sym z ∙ subst (λ x. s.page_frame_map x ≡ true) (sym n ∙ e) v.kernel)
      | inr (w, e) ↦ rw e (v.not_kernel d k w)
    ];
    unique = λ d k e j u w same. elim (new_or_old d k u) [
      | inl (p, q, a) ↦ elim (new_or_old e j w) [
        | inl (p', q', b) ↦ (p ∙ sym p', q ∙ sym q')
        | inr (w', b) ↦ absurd (apart e j w' (sym b ∙ sym same ∙ a))
      ]
      | inr (u', a) ↦ elim (new_or_old e j w) [
        | inl (p', q', b) ↦ absurd (apart d k u' (sym a ∙ same ∙ b))
        | inr (w', b) ↦ v.unique d k e j u' w' (sym a ∙ same ∙ b)
      ]
    ];
  }

module _ (page_dir virtual_addr : ℕ) (s : Paging) (v : IsConsistent s) where
  abbrev place : ℕ
  place = page_index virtual_addr

  module _ (user : IsUser s page_dir place) where
    abbrev frame : ℕ
    frame = frame_of s page_dir place

    abbrev freed : Paging
    freed =
        store_entry
          (record s {
            page_frame_map = store s.page_frame_map frame false;
            free_page_frame_count = u32 (s.free_page_frame_count + 1);
          })
          page_dir place zero_entry

    -- A user entry that is left was there before, at another place.
    left :
        (d k : ℕ)
        → IsUser freed d k
        → IsUser s d k × (frame_of freed d k ≡ frame_of s d k) × (frame_of s d k ≢ frame)
    left d k u = elim (place-cases d k page_dir place) [
      | inl (p, q) ↦ absurd (ground (arith, p, q, u))
      | inr n ↦
          let same : freed.table d k ≡ s.table d k = ground (arith, n) in
          let w : IsUser s d k = rw (← same) u in
          (
            w,
            ap (λ (x : PageDirectoryEntry). x.lower_address) same,
            λ e. moved n (v.unique d k page_dir place w user e),
          )
    ]
      where
        moved : (d ≢ page_dir) ⊎ (k ≢ place) → (d ≡ page_dir) × (k ≡ place) → ⊥
        moved (inl n) (p, q) = n p
        moved (inr n) (p, q) = n q

    counted_free :
        freed.free_page_frame_count ≡ count_if not freed.page_frame_map page_frame_max_count
    counted_free =
        let change =
          count_if-store not s.page_frame_map frame false page_frame_max_count
            (v.inside page_dir place user) in
        let bound = count_if-le not s.page_frame_map page_frame_max_count in
        ground (arith, change, bound, v.count, v.taken page_dir place user)

    pub IsConsistent-freed : IsConsistent freed
    IsConsistent-freed = record {
      kernel = ground (arith, v.kernel, v.not_kernel page_dir place user);
      count = counted_free;
      inside = λ d k u. let (w, e, n) = left d k u in rw e (v.inside d k w);
      taken = λ d k u.
          let (w, e, n) = left d k u in let old = v.taken d k w in ground (arith, e, n, old);
      not_kernel = λ d k u. let (w, e, n) = left d k u in rw e (v.not_kernel d k w);
      unique = λ d k e j u w h.
          let (u', a, n) = left d k u in
          let (w', b, m) = left e j w in v.unique d k e j u' w' (sym a ∙ h ∙ b);
    }
