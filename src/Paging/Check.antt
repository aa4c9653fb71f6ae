-- ===== src/Paging/Check.antt =====
-- What `paging_allocate_check` of src/paging.c decides.
use os_2024_operatingsalsa.Base.{
  refl, zero, suc, Bool-cases, inl, inr, Array, ℕ, ◌≤◌, ◌≡◌, ◌+◌, ◌↔◌, arith, ◌<◌, ℕ_discrete,
  dec_le, sym, ◌∙◌,
}
use mathlib.Core.Bool.{false≢true, Bool, true, false}
use os_2024_operatingsalsa.Paging.{
  check_loop, paging_allocate_check, Paging, page_frame_max_count, requested_frames,
}

-- `n` free frames in a row, from `lo` on.
pub record FreeRun (map : Array Bool) (n lo : ℕ) : Type 0 where
  pub start : ℕ
  pub lower : lo ≤ start
  pub fits : start + n ≤ page_frame_max_count
  pub free : (k : ℕ) → start ≤ k → k < start + n → map k ≡ false

module _ (map : Array Bool) (n : ℕ) where
  check_sound :
      (left idx lo total : ℕ)
      → idx ≡ lo + total
      → idx + left ≡ page_frame_max_count
      → ((k : ℕ) → lo ≤ k → k < idx → map k ≡ false)
      → check_loop left idx map n total ≡ true
      → FreeRun map n lo
  unfolding check_loop
  check_sound zero idx lo total e f h c = absurd (false≢true c)
  check_sound (suc left) idx lo total e f h c = elim (Bool-cases (map idx)) [
    | inl used ↦
        let r =
          check_sound left (idx + 1) (idx + 1) 0 (omega arith) (omega arith)
            (λ k p q. absurd (omega arith)) (ground arith) in
        record { start = r.start; lower = omega (arith, r.lower); fits = r.fits; free = r.free }
    | inr unused ↦ elim (ℕ_discrete (total + 1) n) [
      | yes z ↦ record {
        start = lo;
        lower = omega arith;
        fits = omega arith;
        free = λ k p q. ground (arith, h k);
      }
      | no z ↦
          check_sound left (idx + 1) lo (total + 1) (omega arith) (omega arith)
            (λ k p q. ground (arith, h k)) (ground arith)
    ]
  ]

  check_complete :
      (left idx lo total : ℕ)
      → idx ≡ lo + total
      → idx + left ≡ page_frame_max_count
      → total < n
      → FreeRun map n lo
      → check_loop left idx map n total ≡ true
  unfolding check_loop
  check_complete zero idx lo total e f l r = absurd (omega (arith, r.lower, r.fits))
  check_complete (suc left) idx lo total e f l r = elim (Bool-cases (map idx)) [
    | inl used ↦
        let past : idx < r.start = elim (dec_le r.start idx) [
          | yes p ↦ absurd (ground (arith, used, r.lower, r.free idx p (omega (arith, r.lower))))
          | no p ↦ omega arith
        ] in
        let r' : FreeRun map n (idx + 1) = record {
          start = r.start;
          lower = omega arith;
          fits = r.fits;
          free = r.free;
        } in
        rw used
          (check_complete left (idx + 1) (idx + 1) 0 (omega arith) (omega arith) (omega arith) r')
    | inr unused ↦ elim (ℕ_discrete (total + 1) n) [
      | yes z ↦ ground arith
      | no z ↦
          let rest =
            check_complete left (idx + 1) lo (total + 1) (omega arith) (omega arith) (omega arith)
              r in
          ground (arith, rest)
    ]
  ]

  check_zero : (left idx total : ℕ) → n ≡ 0 → check_loop left idx map n total ≡ false
  unfolding check_loop
  check_zero zero idx total z = refl
  check_zero (suc left) idx total z =
      ground (arith, check_zero left (idx + 1) (total + 1), check_zero left (idx + 1) 0)

module _ (amount : ℕ) (s : Paging) where
  -- `paging_allocate_check` returns true exactly if the amount, rounded up to frames on 32 bits, is
  -- at least one frame and that many free frames stand in a row: it asks for contiguous memory, and
  -- refuses an amount of 0 and an amount that the rounding wraps to 0.
  pub paging_allocate_check_iff :
      (paging_allocate_check amount s ≡ true)
      ↔ ((0 < requested_frames amount) × FreeRun s.page_frame_map (requested_frames amount) 0)
  unfolding paging_allocate_check
  paging_allocate_check_iff = (
    λ c. (
      positive c,
      check_sound s.page_frame_map (requested_frames amount) 32 0 0 0 (omega arith) (omega arith)
          (λ k p q. absurd (omega arith)) c,
    ),
    λ (p, r).
        check_complete s.page_frame_map (requested_frames amount) 32 0 0 0 (omega arith)
          (omega arith) p r,
  )
    where
      positive :
          check_loop 32 0 s.page_frame_map (requested_frames amount) 0 ≡ true
          → 0 < requested_frames amount
      positive c = elim (ℕ_discrete (requested_frames amount) 0) [
        | yes z ↦ absurd (false≢true (sym (check_zero s.page_frame_map _ 32 0 0 z) ∙ c))
        | no z ↦ omega arith
      ]
