-- ===== src/Process/Create.antt =====
-- What `process_create_user_process` of src/process.c does with a process list in order.
use os_2024_operatingsalsa.Base.{
  refl, zero, suc, some, pos, count_if, Bytes, Array, ℕ, ◌≡◌, ◌≤◌, ◌<◌, u32, ◌+◌, arith, ◌*◌, ℤ,
  lt→leb, lt→ltb, ◌^◌, le→ltb, ◌-◌, ◌/◌,
}
use mathlib.Core.Bool.{Bool, true, false}
use os_2024_operatingsalsa.Paging.{
  paging_allocate_check, kernel_virtual_address_base, page_frame_size, page_frame_max_count,
}
use os_2024_operatingsalsa.Paging.Check.{paging_allocate_check_iff}
use os_2024_operatingsalsa.Process.{
  process_create_user_process, create_with, create_at, ceil_div, process_list_get_inactive_index,
  Request, Kernel, to_int, process_count_max, process_page_frame_count_max,
}
use os_2024_operatingsalsa.Process.Table.{
  Inactive, slot, none_inactive, process_list_get_inactive_index-Inactive,
}
use os_2024_operatingsalsa.Process.Destroy.{IsTable}

-- What the code tests before it takes a slot: of the frames, it asks for one only, whatever the size
-- of the file.
pub record CanCreate (r : Request) (k : Kernel) : Type 0 where
  pub table : IsTable k
  pub room : k.active_process_count < process_count_max
  pub entry : r.buf < kernel_virtual_address_base
  pub size : r.buffer_size ≤ 7 * page_frame_size
  pub frame : ℕ
  pub frame_inside : frame < page_frame_max_count
  pub frame_free : k.paging.page_frame_map frame ≡ false
  pub small : k.next_pid < 2 ^ 32 - 1

count_all :
    (map : Array Bool) (n : ℕ) → ((i : ℕ) → i < n → map i ≡ true) → count_if (λ b. b) map n ≡ n
unfolding count_if
count_all map zero h = refl
count_all map (suc n) h =
    ground (arith, h n (omega arith), count_all map n (λ i l. h i (omega arith)))

module _ (g : Bytes) (list_address : ℕ) (r : Request) (k : Kernel) (can : CanCreate r k) where
  needed :
      (c : ℕ) × (ceil_div (to_int (u32 (r.buffer_size + page_frame_size))) page_frame_size
        ≡ some (pos c))
      × (1 ≤ c)
      × (c ≤ 8)
  unfolding ceil_div
  needed =
      let whole : u32 (r.buffer_size + page_frame_size) ≡ r.buffer_size + page_frame_size =
        omega (arith, can.size) in
      let low = lt→ltb (r.buffer_size + page_frame_size) (2 ^ 31) (omega (arith, can.size)) in
      let sum =
        lt→ltb (r.buffer_size + page_frame_size + page_frame_size - 1) (2 ^ 31)
          (omega (arith, can.size)) in
      (
        (r.buffer_size + page_frame_size + page_frame_size - 1) / page_frame_size,
        rw whole (rw low (rw sum)),
        omega arith,
        omega (arith, can.size),
      )

  enough : (c : ℕ) → 1 ≤ c → c ≤ 8 → paging_allocate_check c k.paging ≡ true
  enough c p q = (paging_allocate_check_iff c k.paging).1 (
    omega arith,
    record {
      start = can.frame;
      lower = omega arith;
      fits = omega (arith, can.frame_inside);
      free = λ j a b. ground (arith, can.frame_free);
    },
  )

  slot_found :
      (i : ℕ) × (process_list_get_inactive_index k ≡ pos i)
      × (i < process_count_max)
      × (k.process_frame_map i ≡ false)
  slot_found = go (process_list_get_inactive_index-Inactive k)
    where
      go :
          {o : ℤ}
          → Inactive k.process_frame_map 0 o
          → (i : ℕ) × (o ≡ pos i) × (i < process_count_max) × (k.process_frame_map i ≡ false)
      go (slot i e l h z t) = (i, e, h, z)
      go (none_inactive e t) = absurd (
          omega (
            arith,
            can.room,
            can.table.count,
            count_all k.process_frame_map process_count_max (λ i l. t i (omega arith) l),
          ))

  passes :
      (c : ℕ)
      → ceil_div (to_int (u32 (r.buffer_size + page_frame_size))) page_frame_size ≡ some (pos c)
      → 1 ≤ c
      → c ≤ 8
      → (i : ℕ) → process_list_get_inactive_index k ≡ pos i
      → process_create_user_process g list_address r k ≡ create_at g list_address r i k
  unfolding process_create_user_process create_with
  passes c e lo hi i f =
      let active = lt→leb process_count_max k.active_process_count (λ p. omega (arith, can.room)) in
      let entry = lt→leb kernel_virtual_address_base r.buf (λ p. omega (arith, can.entry)) in
      let few = le→ltb process_page_frame_count_max c hi in
      rw (active, entry, process_create_user_process)
        (rw e (rw (enough c lo hi, few, create_with) (rw f)))

  -- All tests pass, and the call goes on with the first inactive slot.
  pub reaches :
      (i : ℕ) × (process_create_user_process g list_address r k ≡ create_at g list_address r i k)
      × (i < process_count_max)
      × (k.process_frame_map i ≡ false)
  reaches =
      let (c, e, lo, hi) = needed in
      let (i, f, h, z) = slot_found in (i, passes c e lo hi i f, h, z)
