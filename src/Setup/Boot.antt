-- ===== src/Setup/Boot.antt =====
-- What `kernel_setup` of src/kernel.c leaves once the shell is on the disk.
use os_2024_operatingsalsa.Base.{
  le→leb, arith, ℤ, false, is_zero, ◌-◌, refl, some, pos, ℕ, Bytes, Array, ◌≡◌, ◌<◌, ◌≤◌, ◌+◌, ◌^◌,
  u32, true, eq→==, ◌/◌,
}
use os_2024_operatingsalsa.Fat32.Layout.{Fs, Request}
use os_2024_operatingsalsa.Fat32.Format.{initialize_filesystem_fat32}
use os_2024_operatingsalsa.Fat32.Ops.{read}
use os_2024_operatingsalsa.Process.{
  Kernel, create_success, fail_fs_read_failure, fail_max_process_exceeded, process_count_max,
  process_create_user_process,
}
use os_2024_operatingsalsa.Process.Create.{CanCreate}
use os_2024_operatingsalsa.Process.Destroy.{IsTable}
use os_2024_operatingsalsa.Process.Outcome.{
  process_create_user_process-IsTable, process_create_user_process-read_failure,
}
use os_2024_operatingsalsa.Descriptors.{empty_idt, global_descriptor_table}
use os_2024_operatingsalsa.Descriptors.Gates.{IsGate, initialize_idt-IsGate}
use os_2024_operatingsalsa.Descriptors.Segments.{gdt_install_tss-base, base_of}
use os_2024_operatingsalsa.Setup.{
  use_first, Machine, shell_request, set_up, kernel_setup, set_tss_kernel_current_stack,
}
use os_2024_operatingsalsa.Terminal.{framebuffer_set_cursor}
use os_2024_operatingsalsa.Terminal.Cells.{framebuffer_clear-blank}

-- The kernel with its file system mounted.
abbrev pub mounted : Bytes → Kernel → Kernel
mounted garbage k = record k { files = initialize_filesystem_fat32 garbage k.files }

-- `use_first` touches no slot of the list.
use_first-IsTable : (k : Kernel) → IsTable k → IsTable (use_first k)
unfolding use_first
use_first-IsTable k v = record {
  count = v.count;
  active = v.active;
  inactive = v.inactive;
  distinct = v.distinct;
  below = v.below;
  positive = v.positive;
  no_frames = v.no_frames;
}

-- On a machine with an empty interrupt table and the descriptors of the source, a list of processes in order
-- and not full, one free frame, and a file system on which `read` finds the shell, `kernel_setup`
-- creates a process with code 0. Then a slot holds the shell with the next id, and the list is in order; the 48 vectors of the
-- processor and the controllers have gates that no user program can call, the 16 behind them gates that it
-- can; the segment 0x28 is the task state segment, which holds the stack, and the screen is blank.
pub kernel_setup-started :
    (garbage : Bytes) (list_address : ℕ) (isr : Array ℕ) (mask tss_address stack_ptr : ℕ)
    (m : Machine) (files : Fs)
    → m.idt ≡ empty_idt
    → m.gdt ≡ global_descriptor_table
    → ((i : ℕ) → isr i < 2 ^ 32)
    → tss_address < 2 ^ 32
    → CanCreate shell_request (mounted garbage m.kernel)
    → read garbage shell_request (initialize_filesystem_fat32 garbage m.kernel.files)
      ≡ some (pos 0, files)
    → (i : ℕ) × (m1 : Machine) × (kernel_setup garbage list_address isr mask tss_address stack_ptr m
        ≡ some (create_success, m1))
      × (m1.kernel.process_frame_map i ≡ true)
      × ((m1.kernel.process_list i).pid ≡ m.kernel.next_pid)
      × IsTable m1.kernel
      × ((x : ℕ) → x < 0x30 → IsGate (isr x) 0 (m1.idt x))
      × ((x : ℕ) → 0x30 ≤ x → x < 64 → IsGate (isr x) 3 (m1.idt x))
      × (base_of (m1.gdt (0x28 / 8)) ≡ tss_address)
      × (m1.tss_esp0 ≡ u32 (stack_ptr + 8))
      × ((x : ℕ) → x < 2000 → m1.terminal.cells x ≡ 0xF00)
unfolding kernel_setup set_up set_tss_kernel_current_stack framebuffer_set_cursor use_first
kernel_setup-started garbage list_address isr mask tss_address stack_ptr m files no_gates segments
      small h can e =
    let (i, k1, returns, free, map, id, others, table) =
      process_create_user_process-IsTable garbage list_address shell_request
        (mounted garbage m.kernel) can files e in
    let gates = initialize_idt-IsGate isr small in
    let base = gdt_install_tss-base tss_address h in
    let this : k1.process_frame_map i ≡ true = rw (map i, eq→== i i refl) refl in
    rw (no_gates, segments, returns)
      (
        i,
        _,
        refl,
        this,
        id,
        use_first-IsTable k1 table,
        gates.0,
        gates.1,
        base.0,
        refl,
        framebuffer_clear-blank m.terminal.cells,
      )

-- On a machine with no process and a list in order, one free frame, and a file system on which `read` of the
-- shell fails, the creation in `kernel_setup` returns 4, with the same slots active as before and 2^32 - 1 as the count of processes.
-- Every creation from then on returns 1, whatever the request is: no process can start any more.
pub kernel_setup-no_shell :
    (garbage : Bytes) (list_address : ℕ) (isr : Array ℕ) (mask tss_address stack_ptr : ℕ)
    (m : Machine) (z : ℤ) (files : Fs)
    → m.kernel.active_process_count ≡ 0
    → CanCreate shell_request (mounted garbage m.kernel)
    → read garbage shell_request (initialize_filesystem_fat32 garbage m.kernel.files)
      ≡ some (z, files)
    → is_zero z ≡ false
    → (m1 : Machine) × (kernel_setup garbage list_address isr mask tss_address stack_ptr m
        ≡ some (fail_fs_read_failure, m1))
      × ((j : ℕ)
          → j < process_count_max
          → m1.kernel.process_frame_map j ≡ m.kernel.process_frame_map j)
      × (m1.kernel.active_process_count ≡ 2 ^ 32 - 1)
      × ((g2 : Bytes) (r2 : Request)
          → process_create_user_process g2 list_address r2 m1.kernel
            ≡ some (fail_max_process_exceeded, m1.kernel))
unfolding kernel_setup set_up use_first process_create_user_process
kernel_setup-no_shell garbage list_address isr mask tss_address stack_ptr m z files none_yet can e
      n =
    let (k1, returns, same, count, later) =
      process_create_user_process-read_failure garbage list_address shell_request
        (mounted garbage m.kernel) can z files e n in
    let wraps : k1.active_process_count ≡ 2 ^ 32 - 1 = rw (count, none_yet) refl in
    let full : process_count_max ≤ k1.active_process_count = omega (arith, wraps) in
    rw returns (_, refl, same, wraps, λ g2 r2. rw (le→leb _ _ full) refl)
