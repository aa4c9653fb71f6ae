-- ===== src/Process/Table.antt =====
-- The searches of src/process.c in the process list.
use os_2024_operatingsalsa.Base.{
  refl, zero, suc, some, none, inl, inr, Bool-cases, pos, ℕ, Array, arith, Bool, ◌≤◌, ℤ, ◌+◌, ◌≡◌,
  ◌<◌, ◌≢◌, if◌then◌else◌, true, ne→==, ℕ_discrete, false, ◌&&◌, eq→==, minus_one, ◌==◌, store,
}
use os_2024_operatingsalsa.Process.{
  inactive_loop, process_list_get_inactive_index, pid_loop, find_pid, inactivate_loop, Kernel,
  ProcessControlBlock, process_count_max,
}
use os_2024_operatingsalsa.StringOps.Memory.{in_range}

-- The lowest inactive slot from `lo` on, or -1.
pub data Inactive (map : Array Bool) (lo : ℕ) (o : ℤ) : Type 0 where
  slot :
      (i : ℕ)
      → o ≡ pos i
      → lo ≤ i
      → i < process_count_max
      → map i ≡ false
      → ((k : ℕ) → lo ≤ k → k < i → map k ≡ true)
      → Inactive map lo o
  none_inactive :
      o ≡ minus_one → ((k : ℕ) → lo ≤ k → k < process_count_max → map k ≡ true) → Inactive map lo o

module _ (map : Array Bool) where
  active_from :
      (lo hi : ℕ)
      → map lo ≡ true
      → ((k : ℕ) → lo + 1 ≤ k → k < hi → map k ≡ true)
      → (k : ℕ) → lo ≤ k
      → k < hi
      → map k ≡ true
  active_from lo hi u h k p q = elim (ℕ_discrete k lo) [
    | yes e ↦ rw e u
    | no ne ↦ h k (omega arith) q
  ]

  Inactive-next : (lo : ℕ) (o : ℤ) → map lo ≡ true → Inactive map (lo + 1) o → Inactive map lo o
  Inactive-next lo o u (slot i e l h z t) = slot i e (omega arith) h z (active_from lo i u t)
  Inactive-next lo o u (none_inactive e t) = none_inactive e (active_from lo process_count_max u t)

  inactive_loop-Inactive :
      (left i : ℕ) → i + left ≡ process_count_max → Inactive map i (inactive_loop left i map)
  unfolding inactive_loop
  inactive_loop-Inactive zero i e = none_inactive refl (λ k p q. absurd (omega arith))
  inactive_loop-Inactive (suc left) i e = elim (Bool-cases (map i)) [
    | inl u ↦ rw u (Inactive-next i _ u (inactive_loop-Inactive left (i + 1) (omega arith)))
    | inr z ↦ rw z (slot i refl (omega arith) (omega arith) z (λ k p q. absurd (omega arith)))
  ]

pub process_list_get_inactive_index-Inactive :
    (k : Kernel) → Inactive k.process_frame_map 0 (process_list_get_inactive_index k)
unfolding process_list_get_inactive_index
process_list_get_inactive_index-Inactive k =
    inactive_loop-Inactive k.process_frame_map 16 0 (omega arith)

module _ (pid : ℕ) (list : Array ProcessControlBlock) where
  pid_loop-hit :
      (left lo i : ℕ)
      → lo ≤ i
      → i < lo + left
      → (list i).pid ≡ pid
      → ((k : ℕ) → lo ≤ k → k < i → (list k).pid ≢ pid)
      → pid_loop left lo pid list ≡ some i
  unfolding pid_loop
  pid_loop-hit zero lo i l h e n = absurd (omega arith)
  pid_loop-hit (suc left) lo i l h e n = elim (ℕ_discrete lo i) [
    | yes p ↦ rw (p, eq→== _ _ e)
    | no q ↦
        rw (ne→== _ _ (n lo (omega arith) (omega arith))) (
          pid_loop-hit left (lo + 1) i (omega arith) (omega arith) e (λ k a b. n k (omega arith) b))
  ]

  pub find_pid-hit :
      (i : ℕ)
      → i < process_count_max
      → (list i).pid ≡ pid
      → ((k : ℕ) → k < i → (list k).pid ≢ pid)
      → find_pid pid list ≡ some i
  unfolding find_pid
  find_pid-hit i h e n = pid_loop-hit 16 0 i (omega arith) (omega arith) e (λ k a b. n k b)

  pid_loop-miss :
      (left lo : ℕ)
      → ((k : ℕ) → lo ≤ k → k < lo + left → (list k).pid ≢ pid)
      → pid_loop left lo pid list ≡ none
  unfolding pid_loop
  pid_loop-miss zero lo n = refl
  pid_loop-miss (suc left) lo n =
      rw (ne→== _ _ (n lo (omega arith) (omega arith)))
        (pid_loop-miss left (lo + 1) (λ k a b. n k (omega arith) (omega arith)))

  pub find_pid-miss :
      ((k : ℕ) → k < process_count_max → (list k).pid ≢ pid) → find_pid pid list ≡ none
  unfolding find_pid
  find_pid-miss n = pid_loop-miss 16 0 (λ k a b. n k (omega arith))

-- Which slots the last loop of `process_destroy` marks inactive.
pub inactivate_loop_lem :
    (left lo : ℕ) (list : Array ProcessControlBlock) (map : Array Bool) (k : ℕ)
    → inactivate_loop left lo list map k
      ≡ (if in_range lo left k && ((list k).pid == 0) then false else map k)
unfolding inactivate_loop
inactivate_loop_lem zero lo list map k = ground arith
inactivate_loop_lem (suc left) lo list map k = elim (ℕ_discrete k lo) [
  | yes e ↦ rw e (
      ground (
        arith,
        inactivate_loop_lem left (lo + 1) list (store map lo false) lo,
        inactivate_loop_lem left (lo + 1) list map lo,
      ))
  | no n ↦ ground (
    arith,
    inactivate_loop_lem left (lo + 1) list (store map lo false) k,
    inactivate_loop_lem left (lo + 1) list map k,
  )
]
