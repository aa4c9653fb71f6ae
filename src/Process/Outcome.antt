-- ===== src/Process/Outcome.antt =====
-- The two ends of `process_create_user_process` of src/process.c, and what they make of the process list.
use os_2024_operatingsalsa.Base.{
  le→leb, refl, some, inl, inr, Bool-cases, pos, Bytes, ℕ, ℤ, ◌<◌, ◌≡◌, is_zero, count_if-store,
  if◌then◌else◌, ◌≢◌, sym, arith, ◌==◌, count_if-le, u32_sub, ◌∙◌, subst, ◌≤◌,
}
use mathlib.Core.Bool.{false≢true, false, true}
use os_2024_operatingsalsa.Process.{
  process_create_user_process, process_destroy, Request, Kernel, Fs, read, process_count_max,
  create_success, fail_fs_read_failure, fail_max_process_exceeded,
}
use os_2024_operatingsalsa.Process.Table.{inactivate_loop_lem}
use os_2024_operatingsalsa.Process.Destroy.{IsTable, destroyed, process_destroy-returns}
use os_2024_operatingsalsa.Process.Create.{CanCreate, reaches}
use os_2024_operatingsalsa.Process.Start.{started, failed, create_at-started, create_at-failed}

module _ (g : Bytes) (list_address : ℕ) (r : Request) (k : Kernel) (can : CanCreate r k) where
  abbrev v : IsTable k
  v = can.table

  module _ (i : ℕ) (h : i < process_count_max) (z : k.process_frame_map i ≡ false)
      (files : Fs) where
    abbrev made : Kernel
    made = started g list_address r k i files

    made_pid :
        (j : ℕ)
        → (made.process_list j).pid ≡ (if j == i then k.next_pid else (k.process_list j).pid)
    made_pid j = ground arith

    IsTable-started : IsTable made
    IsTable-started = record {
      count =
          let change = count_if-store (λ b. b) k.process_frame_map i true process_count_max h in
          let bound = count_if-le (λ b. b) k.process_frame_map process_count_max in
          ground (arith, change, bound, v.count, z);
      active = λ j l t. ground (arith, made_pid j, v.active j l, v.positive);
      inactive = λ j l f. ground (arith, made_pid j, v.inactive j l);
      distinct = λ j m l p n e.
          ground (arith, made_pid j, made_pid m, v.distinct j m l p, v.below j l, v.below m p);
      below = λ j l. ground (arith, made_pid j, v.below j l, can.small);
      positive = omega (arith, can.small);
      no_frames = λ j l. ground (arith, v.no_frames j l);
    }

    abbrev undone : Kernel
    undone = failed g list_address r k i files

    destroy_undone : process_destroy k.next_pid undone ≡ some (true, destroyed i undone)
    destroy_undone =
        process_destroy-returns undone i k.next_pid h (ground arith) others
          (ground (arith, v.no_frames i h))
      where
        others : (j : ℕ) → j < i → (undone.process_list j).pid ≢ k.next_pid
        others j l = ground (arith, v.below j (omega arith))

    undone_map :
        (j : ℕ)
        → j < process_count_max
        → (destroyed i undone).process_frame_map j ≡ k.process_frame_map j
    undone_map j l = elim (Bool-cases (k.process_frame_map j)) [
      | inl t ↦
          let has_id = v.active j l t in
          let other : j ≢ i =
            λ e. false≢true (sym z ∙ subst (λ x. k.process_frame_map x ≡ true) e t) in
          ground (
            arith,
            has_id,
            other,
            inactivate_loop_lem process_count_max 0 (destroyed i undone).process_list
                undone.process_frame_map j,
          )
      | inr f ↦ ground (
        arith,
        inactivate_loop_lem process_count_max 0 (destroyed i undone).process_list
            undone.process_frame_map j,
      )
    ]

  -- With a list in order and not full, an entry point below the kernel, a file of at most 28 MiB, one
  -- free frame and a file that is read, a creation returns 0: an inactive slot becomes active with
  -- the next id, the other slots keep their processes, and the list stays in order.
  pub process_create_user_process-IsTable :
      (files : Fs)
      → read g r k.files ≡ some (pos 0, files)
      → (i : ℕ) × (k1 : Kernel) × (process_create_user_process g list_address r k
          ≡ some (create_success, k1))
        × (k.process_frame_map i ≡ false)
        × ((j : ℕ) → k1.process_frame_map j ≡ (if j == i then true else k.process_frame_map j))
        × ((k1.process_list i).pid ≡ k.next_pid)
        × ((j : ℕ) → j ≢ i → k1.process_list j ≡ k.process_list j)
        × IsTable k1
  process_create_user_process-IsTable files e =
      let (i, f, h, z) = reaches g list_address r k can in
      (
        i,
        made i h z files,
        f ∙ create_at-started g list_address r k i files e,
        z,
        λ j. refl,
        ground arith,
        λ j n. ground (arith, n),
        IsTable-started i h z files,
      )

  -- Where all tests pass but the file is not read, a creation returns 4 and the slots that are active are as before, but
  -- the count of processes is one less than it was, modulo 2^32: with no process it wraps to
  -- 2^32 - 1, and every later creation returns 1.
  pub process_create_user_process-read_failure :
      (z : ℤ) (files : Fs)
      → read g r k.files ≡ some (z, files)
      → is_zero z ≡ false
      → (k1 : Kernel) × (process_create_user_process g list_address r k
          ≡ some (fail_fs_read_failure, k1))
        × ((j : ℕ) → j < process_count_max → k1.process_frame_map j ≡ k.process_frame_map j)
        × (k1.active_process_count ≡ u32_sub k.active_process_count 1)
        × ((g2 : Bytes) (r2 : Request)
            → k.active_process_count ≡ 0
            → process_create_user_process g2 list_address r2 k1
              ≡ some (fail_max_process_exceeded, k1))
  unfolding process_create_user_process
  process_create_user_process-read_failure code files e n =
      let (i, f, h, z) = reaches g list_address r k can in
      (
        destroyed i (undone i h z files),
        f
            ∙ create_at-failed g list_address r k i code files (destroyed i (undone i h z files)) e
                n (destroy_undone i h z files),
        undone_map i h z files,
        refl,
        λ g2 r2 empty. rw (le→leb _ _ (full empty)) refl,
      )
    where
      full : k.active_process_count ≡ 0 → process_count_max ≤ u32_sub k.active_process_count 1
      full empty = omega (arith, empty)
