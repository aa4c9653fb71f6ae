-- ===== src/Process/Destroy.antt =====
-- What `process_destroy` of src/process.c does to a process list in order.
use os_2024_operatingsalsa.Base.{
  refl, zero, suc, some, inl, inr, Bool-cases, ℕ, store, ◌≡◌, ◌<◌, count_if, ◌≢◌, u32_sub, ◌≤◌,
  if◌then◌else◌, count_if-store, ◌==◌, arith, count_if-le, sym,
}
use mathlib.Core.Bool.{true, false}
use os_2024_operatingsalsa.Process.{
  process_destroy, free_frames_loop, inactivate_loop, Kernel, cleared_pcb, process_count_max,
}
use os_2024_operatingsalsa.Process.Table.{find_pid-hit, find_pid-miss, inactivate_loop_lem}

-- A process list in order: the count is the number of active slots, exactly the active slots have an
-- id other than 0, no two of them share it, all ids are below the next one, and no slot records a
-- frame, since no code of the kernel ever sets `page_frame_used_count`.
pub record IsTable (k : Kernel) : Type 0 where
  pub count : k.active_process_count ≡ count_if (λ b. b) k.process_frame_map process_count_max
  pub active :
      (i : ℕ) → i < process_count_max → k.process_frame_map i ≡ true → (k.process_list i).pid ≢ 0
  pub inactive :
      (i : ℕ) → i < process_count_max → k.process_frame_map i ≡ false → (k.process_list i).pid ≡ 0
  pub distinct :
      (i j : ℕ)
      → i < process_count_max
      → j < process_count_max
      → (k.process_list i).pid ≢ 0
      → (k.process_list i).pid ≡ (k.process_list j).pid
      → i ≡ j
  pub below : (i : ℕ) → i < process_count_max → (k.process_list i).pid < k.next_pid
  pub positive : 0 < k.next_pid
  pub no_frames : (i : ℕ) → i < process_count_max → (k.process_list i).page_frame_used_count ≡ 0

-- Slot `i` is given back: its process is reset, and nothing of the memory changes.
abbrev pub destroyed : ℕ → Kernel → Kernel
destroyed i k = record k {
  process_list = store k.process_list i (cleared_pcb (k.process_list i));
  process_frame_map =
      inactivate_loop process_count_max 0 (store k.process_list i (cleared_pcb (k.process_list i)))
        k.process_frame_map;
  active_process_count = u32_sub k.active_process_count 1;
}

-- A destruction of the process in slot `i`, the first with its id, that records no frame.
pub process_destroy-returns :
    (k : Kernel) (i pid : ℕ)
    → i < process_count_max
    → (k.process_list i).pid ≡ pid
    → ((j : ℕ) → j < i → (k.process_list j).pid ≢ pid)
    → (k.process_list i).page_frame_used_count ≡ 0
    → process_destroy pid k ≡ some (true, destroyed i k)
unfolding process_destroy free_frames_loop
process_destroy-returns k i pid h e n f =
    rw (find_pid-hit pid k.process_list i h e n, process_destroy) (rw (f, free_frames_loop))

module _ (k : Kernel) (v : IsTable k) where
  module _ (i : ℕ) (h : i < process_count_max) (a : k.process_frame_map i ≡ true) where
    abbrev after : Kernel
    after = destroyed i k

    after_pid :
        (j : ℕ) → (after.process_list j).pid ≡ (if j == i then 0 else (k.process_list j).pid)
    after_pid j = ground arith

    after_map :
        (j : ℕ)
        → j < process_count_max
        → after.process_frame_map j ≡ (if j == i then false else k.process_frame_map j)
    after_map j l = elim (Bool-cases (k.process_frame_map j)) [
      | inl t ↦
          let has_id = v.active j l t in
          ground (
            arith,
            has_id,
            inactivate_loop_lem process_count_max 0 after.process_list k.process_frame_map j,
          )
      | inr f ↦
          ground (
            arith,
            inactivate_loop_lem process_count_max 0 after.process_list k.process_frame_map j,
          )
    ]

    counted :
        (n : ℕ)
        → n ≤ process_count_max
        → count_if (λ b. b) after.process_frame_map n
          ≡ count_if (λ b. b) (store k.process_frame_map i false) n
    unfolding count_if
    counted zero l = refl
    counted (suc n) l = ground (arith, after_map n, counted n)

    IsTable-destroyed : IsTable after
    IsTable-destroyed = record {
      count =
          let change = count_if-store (λ b. b) k.process_frame_map i false process_count_max h in
          let bound = count_if-le (λ b. b) k.process_frame_map process_count_max in
          ground (arith, change, bound, v.count, counted process_count_max);
      active = λ j l t. ground (arith, after_map j l, v.active j l);
      inactive = λ j l f. ground (arith, after_map j l, v.inactive j l);
      distinct = λ j m l p n e. ground (arith, after_pid j, after_pid m, v.distinct j m l p);
      below = λ j l. ground (arith, after_pid j, v.below j l, v.positive);
      positive = v.positive;
      no_frames = λ j l. ground (arith, v.no_frames j l);
    }

    -- With a process list in order, the id of an active process destroys exactly that process: the call returns true, its slot is
    -- inactive, the other slots are as before, and the list stays in order. No frame and no page
    -- directory is given back: the state of the memory is what it was.
    pub process_destroy_lem :
        (k1 : Kernel) × (process_destroy ((k.process_list i).pid) k ≡ some (true, k1))
        × IsTable k1
        × ((j : ℕ)
            → j < process_count_max
            → k1.process_frame_map j ≡ (if j == i then false else k.process_frame_map j))
        × ((j : ℕ) → j ≢ i → k1.process_list j ≡ k.process_list j)
        × (k1.paging ≡ k.paging)
    process_destroy_lem = (
      after,
      process_destroy-returns k i _ h refl others (v.no_frames i h),
      IsTable-destroyed,
      after_map,
      λ j n. ground (arith, n),
      refl,
    )
      where
        others : (j : ℕ) → j < i → (k.process_list j).pid ≢ (k.process_list i).pid
        others j l e =
            let same = v.distinct i j h (omega arith) (v.active i h a) (sym e) in
            omega (arith, same)

  -- An id that no slot has is refused, and nothing changes.
  pub process_destroy-unknown :
      (pid : ℕ)
      → ((j : ℕ) → j < process_count_max → (k.process_list j).pid ≢ pid)
      → process_destroy pid k ≡ some (false, k)
  unfolding process_destroy
  process_destroy-unknown pid n = rw (find_pid-miss pid k.process_list n, process_destroy)
