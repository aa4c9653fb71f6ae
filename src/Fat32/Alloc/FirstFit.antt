-- ===== src/Fat32/Alloc/FirstFit.antt =====
-- `first_fit` finds the lowest run of empty entries that is long enough, and fails only if none is.
use os_2024_operatingsalsa.Base.{
  ℕ, zero, suc, ◌+◌, ◌-◌, ◌≤◌, ◌<◌, ◌≡◌, refl, ◌≢◌, Array, leb, if◌then◌else◌, ℤ, pos, minus_one,
  arith, ℕ_discrete, dec_lt, dec_le, lt→ltb, le→ltb, le→leb, lt→leb, eq→==, ne→==, subst, sym,
}
use os_2024_operatingsalsa.Fat32.Layout.{cluster_map_size, empty_entry}
use os_2024_operatingsalsa.Fat32.Alloc.{skip_used, skip_empty, first_fit_loop, first_fit}

-- Where a scan from `i` stops: every entry that it passed has `P`, and the entry at `s` has not.
record Stops (P : ℕ → Type 0) (i s : ℕ) : Type 0 where
  forward : i ≤ s
  inside : s ≤ cluster_map_size
  passed : (j : ℕ) → i ≤ j → j < s → P j
  stopped : s < cluster_map_size → ¬ P s

module _ (P : ℕ → Type 0) where
  Stops-end : (i : ℕ) → i ≡ cluster_map_size → Stops P i i
  Stops-end i e = record {
    forward = omega arith;
    inside = omega arith;
    passed = λ j p q. absurd (omega arith);
    stopped = λ h. absurd (omega arith);
  }

  Stops-here : (i : ℕ) → i ≤ cluster_map_size → ¬ P i → Stops P i i
  Stops-here i h n = record {
    forward = omega arith;
    inside = h;
    passed = λ j p q. absurd (omega arith);
    stopped = λ _. n;
  }

  Stops-next : (i s : ℕ) → P i → Stops P (i + 1) s → Stops P i s
  Stops-next i s p r = record {
    forward = omega (arith, r.forward);
    inside = r.inside;
    passed = λ j u v. elim (ℕ_discrete j i) [
      | yes e ↦ subst P (sym e) p
      | no n ↦ r.passed j (omega arith) v
    ];
    stopped = r.stopped;
  }

module _ (map : Array ℕ) where
  abbrev Used : ℕ → Type 0
  Used j = map j ≢ empty_entry

  abbrev Empty : ℕ → Type 0
  Empty j = map j ≡ empty_entry

  skip_used-Stops :
      (fuel i : ℕ)
      → i ≤ cluster_map_size
      → cluster_map_size ≤ i + fuel
      → Stops Used i (skip_used fuel map i)
  unfolding skip_used
  skip_used-Stops zero i h k = Stops-end Used i (omega arith)
  skip_used-Stops (suc fuel) i h k = elim (dec_lt i cluster_map_size) [
    | yes p ↦ elim (ℕ_discrete (map i) empty_entry) [
      | yes e ↦ rw (lt→ltb _ _ p, eq→== _ _ e) (Stops-here Used i h (λ n. n e))
      | no n ↦
          rw (lt→ltb _ _ p, ne→== _ _ n)
            (Stops-next Used i _ n (skip_used-Stops fuel (i + 1) (omega arith) (omega arith)))
    ]
    | no p ↦ rw (le→ltb i cluster_map_size (omega arith)) (Stops-end Used i (omega arith))
  ]

  skip_empty-Stops :
      (fuel i : ℕ)
      → i ≤ cluster_map_size
      → cluster_map_size ≤ i + fuel
      → Stops Empty i (skip_empty fuel map i)
  unfolding skip_empty
  skip_empty-Stops zero i h k = Stops-end Empty i (omega arith)
  skip_empty-Stops (suc fuel) i h k = elim (dec_lt i cluster_map_size) [
    | yes p ↦ elim (ℕ_discrete (map i) empty_entry) [
      | yes e ↦
          rw (lt→ltb _ _ p, eq→== _ _ e)
            (Stops-next Empty i _ e (skip_empty-Stops fuel (i + 1) (omega arith) (omega arith)))
      | no n ↦ rw (lt→ltb _ _ p, ne→== _ _ n) (Stops-here Empty i h n)
    ]
    | no p ↦ rw (le→ltb i cluster_map_size (omega arith)) (Stops-end Empty i (omega arith))
  ]

-- `n` empty entries from `i` on, inside the table.
pub record IsRun (map : Array ℕ) (n i : ℕ) : Type 0 where
  pub fits : i + n ≤ cluster_map_size
  pub empty : (k : ℕ) → i ≤ k → k < i + n → map k ≡ empty_entry

-- What a result of a search from `lo` on says.
pub data Fits (map : Array ℕ) (n lo : ℕ) (r : ℤ) : Type 0 where
  found :
      (i : ℕ)
      → r ≡ pos i
      → lo ≤ i
      → IsRun map n i
      → ((j : ℕ) → lo ≤ j → j < i → ¬ IsRun map n j)
      → Fits map n lo r
  full : r ≡ minus_one → ((j : ℕ) → lo ≤ j → ¬ IsRun map n j) → Fits map n lo r

module _ (map : Array ℕ) (n : ℕ) (some_needed : 0 < n) where
  -- No run starts in the part that a round leaves behind.
  left_behind :
      (lo s e : ℕ)
      → Stops (Used map) lo s
      → Stops (Empty map) s e
      → e - s < n
      → (j : ℕ) → lo ≤ j
      → j < e
      → ¬ IsRun map n j
  left_behind lo s e u v short j p q r = elim (dec_lt j s) [
    | yes before ↦ u.passed j p before (r.empty j (omega arith) (omega arith))
    | no after ↦
        v.stopped (omega (arith, r.fits)) (r.empty e (omega arith) (omega (arith, v.forward)))
  ]

  Fits-later :
      (lo e : ℕ) (r : ℤ)
      → lo ≤ e
      → ((j : ℕ) → lo ≤ j → j < e → ¬ IsRun map n j)
      → Fits map n e r
      → Fits map n lo r
  Fits-later lo e r h none (found i q p run least) =
      found i q (omega arith) run
        λ j a b. elim (dec_lt j e) [ yes c ↦ none j a c | no c ↦ least j (omega arith) b ]
  Fits-later lo e r h none (full q never) =
      full q λ j a. elim (dec_lt j e) [ yes c ↦ none j a c | no c ↦ never j (omega arith) ]

  no_room : (lo j : ℕ) → cluster_map_size ≤ lo → lo ≤ j → ¬ IsRun map n j
  no_room lo j h p r = omega (arith, r.fits)

  -- One round, with the recursive call `rest` left open.
  Fits-round :
      (lo : ℕ) (rest : ℤ) (s e : ℕ)
      → Stops (Used map) lo s
      → Stops (Empty map) s e
      → (s < e → Fits map n e rest)
      → Fits map n lo
          (if leb cluster_map_size s then minus_one else if leb n (e - s) then pos s else rest)
  Fits-round lo rest s e u v more = elim (dec_le cluster_map_size s) [
    | yes over ↦ rw (le→leb _ _ over) (
        full refl (λ j p. elim (dec_lt j s) [
          | yes b ↦ λ r. u.passed j p b (r.empty j (omega arith) (omega arith))
          | no b ↦ no_room s j over (omega arith)
        ]))
    | no under ↦ elim (dec_le n (e - s)) [
      | yes long ↦
          rw (lt→leb _ _ under, le→leb _ _ long)
            (found s refl u.forward
              (record {
                fits = omega (arith, v.inside);
                empty = λ k a b. v.passed k a (omega arith);
              })
              (λ j a b r. u.passed j a b (r.empty j (omega arith) (omega arith))))
      | no short ↦
          rw (lt→leb _ _ under, lt→leb _ _ short)
            (Fits-later lo e rest (omega (arith, u.forward, v.forward))
              (left_behind lo s e u v (omega arith)) (more (progress under)))
    ]
  ]
    where
      progress : ¬ (cluster_map_size ≤ s) → s < e
      progress h = elim (ℕ_discrete e s) [
        | yes same ↦ absurd (u.stopped (omega arith) (λ z. v.stopped (omega arith) (rw same z)))
        | no differ ↦ omega (arith, v.forward)
      ]

  Fits-loop :
      (fuel lo : ℕ) → cluster_map_size ≤ lo + fuel → Fits map n lo (first_fit_loop fuel map n lo)
  unfolding first_fit_loop
  Fits-loop zero lo h = full refl (λ j p. no_room lo j (omega arith) p)
  Fits-loop (suc fuel) lo h = elim (dec_lt lo cluster_map_size) [
    | no p ↦
        rw (le→ltb lo cluster_map_size (omega arith))
          (full refl (λ j q. no_room lo j (omega arith) q))
    | yes p ↦
        let u = skip_used-Stops map cluster_map_size lo (omega arith) (omega arith) in
        let v = skip_empty-Stops map cluster_map_size _ u.inside (omega arith) in
        rw (lt→ltb _ _ p)
          (Fits-round lo _ _ _ u v (λ q. Fits-loop fuel _ (omega (arith, u.forward))))
  ]

  -- For at least one cluster, `first_fit` returns the lowest index from 3 on at which that many
  -- entries are empty, and -1 exactly if there is no such index.
  pub first_fit-Fits : Fits map n 3 (first_fit map n)
  unfolding first_fit
  first_fit-Fits = Fits-loop cluster_map_size 3 (omega arith)
