-- ===== src/Process.antt =====
-- src/process.c and src/header/process/process.h. `none` is an access outside of an array, or a signed
-- sum that overflows. `garbage` is what the stack holds where the uninitialised locals stand.
mod Layout
pub mod Table
pub mod Destroy
pub mod Create
pub mod Start
pub mod Outcome
pub use Layout.*
use os_2024_operatingsalsa.Base.{
  ◌>>=◌, refl, zero, suc, some, none, ℕ, Array, Bytes, ℤ, bit_or, if◌then◌else◌, pos, u32, Bool,
  Option, ltb, store, leb, negsuc, not, false, ◌+◌, minus_one, ◌||◌, ◌^◌, ◌==◌, ◌-◌, ◌/◌, negate,
  true, is_zero, u32_sub,
}
use os_2024_operatingsalsa.Fat32.Layout.{Request, Fs}
use os_2024_operatingsalsa.Fat32.Ops.{read}
use os_2024_operatingsalsa.Paging.{
  paging_allocate_check, paging_allocate_user_page_frame, paging_free_user_page_frame,
  paging_create_new_page_directory, paging_get_current_page_directory_addr,
  paging_use_page_directory, Paging, kernel_virtual_address_base, page_frame_size,
}

-- A 32-bit word read as a signed number, and back.
abbrev pub to_int : ℕ → ℤ
to_int n = if ltb n (2 ^ 31) then pos n else negsuc (2 ^ 32 - 1 - n)

abbrev pub of_int : ℤ → ℕ
of_int (pos n) = n
of_int (negsuc n) = 2 ^ 32 - 1 - n

-- `(a + b - 1) / b` for a positive `b`; the division rounds towards 0, and a sum from 2^31 on
-- overflows.
unfoldable pub ceil_div : ℤ → ℕ → Option ℤ
ceil_div (pos a) b = if ltb (a + b - 1) (2 ^ 31) then some (pos ((a + b - 1) / b)) else none
ceil_div (negsuc a) b =
    if ltb a b then some (pos ((b - 1 - (a + 1)) / b)) else some (negate (pos ((a + 2 - b) / b)))

-- `process_list_get_inactive_index` with the slots that are left.
pub inactive_loop : ℕ → ℕ → Array Bool → ℤ
inactive_loop zero i map = minus_one
inactive_loop (suc left) i map =
    let rest = inactive_loop left (i + 1) map in if not (map i) then pos i else rest

unfoldable pub process_list_get_inactive_index : Kernel → ℤ
unfolding inactive_loop
process_list_get_inactive_index k = inactive_loop process_count_max 0 k.process_frame_map

unfoldable pub process_generate_new_pid : Kernel → ℕ × Kernel
process_generate_new_pid k = (k.next_pid, record k { next_pid = u32 (k.next_pid + 1) })

-- The first slot with the process id, if there is one.
pub pid_loop : ℕ → ℕ → ℕ → Array ProcessControlBlock → Option ℕ
pid_loop zero i pid list = none
pid_loop (suc left) i pid list =
    let rest = pid_loop left (i + 1) pid list in if (list i).pid == pid then some i else rest

unfoldable pub find_pid : ℕ → Array ProcessControlBlock → Option ℕ
unfolding pid_loop
find_pid pid list = pid_loop process_count_max 0 pid list

-- The loop that frees the `left` frames of a process from `i` on.
pub free_frames_loop : ℕ → ℕ → ProcessControlBlock → Paging → Option Paging
free_frames_loop zero i process p = some p
free_frames_loop (suc left) i process p =
    if not (ltb i process_page_frame_count_max) then none else do
      freed ←
          paging_free_user_page_frame process.context.page_directory_virtual_addr
            (process.virtual_addr_used i) p
      free_frames_loop left (i + 1) process freed.1

-- The loop that marks the slots with process id 0 inactive.
pub inactivate_loop : ℕ → ℕ → Array ProcessControlBlock → Array Bool → Array Bool
inactivate_loop zero i list map = map
inactivate_loop (suc left) i list map =
    inactivate_loop left (i + 1) list (if (list i).pid == 0 then store map i false else map)

-- The slot `i` of a process that is destroyed: its id, state and directory are reset.
abbrev pub cleared_pcb : ProcessControlBlock → ProcessControlBlock
cleared_pcb process = record process {
  pid = 0;
  state = ready;
  context = record process.context { page_directory_virtual_addr = 0 };
  page_frame_used_count = 0;
}

unfoldable pub process_destroy : ℕ → Kernel → Option (Bool × Kernel)
unfolding find_pid free_frames_loop inactivate_loop
process_destroy pid k = elim (find_pid pid k.process_list) [
  | none ↦ some (false, k)
  | some i ↦ do
    let process = k.process_list i
    paging' ← free_frames_loop process.page_frame_used_count 0 process k.paging
    let list = store k.process_list i (cleared_pcb process)
    some (
      true,
      record k {
        process_list = list;
        process_frame_map = inactivate_loop process_count_max 0 list k.process_frame_map;
        active_process_count = u32_sub k.active_process_count 1;
        paging = paging';
      },
    )
]

-- The slot of a new process before its file is read.
abbrev pub new_pcb : ℕ → ℕ → ProcessControlBlock → ProcessControlBlock
new_pcb pid page_dir old = record old {
  pid = pid;
  state = ready;
  context = record old.context { page_directory_virtual_addr = page_dir };
}

-- The slot after its context is set: `eip` keeps its old value.
abbrev pub started_pcb : ProcessControlBlock → ProcessControlBlock
started_pcb process = record process {
  context = record process.context {
    cpu = record zero_registers { esp = 0xBFFFFFFC };
    eflags = bit_or cpu_eflags_base_flag cpu_eflags_flag_interrupt_enable;
  };
}

-- The steps once a slot is chosen: a process id, a directory, one frame, and the file. With no directory left
-- the source goes on with NULL, which is address 0 here too: each of the 32 directories that are taken
-- has taken one of the 31 frames with it, so that `create_with` has refused before.
unfoldable pub create_at : Bytes → ℕ → Request → ℕ → Kernel → Option (ℕ × Kernel)
unfolding process_generate_new_pid
create_at garbage list_address request p_index k = do
  let (pid, k1) = process_generate_new_pid k
  let (page_dir, p1) = paging_create_new_page_directory list_address k1.paging
  let temp = paging_get_current_page_directory_addr p1
  let list = store k1.process_list p_index (new_pcb pid page_dir (k1.process_list p_index))
  allocated ← paging_allocate_user_page_frame page_dir request.buf p1
  let p2 = paging_use_page_directory page_dir allocated.1
  result ← read garbage request k1.files
  let k2 = record k1 { process_list = list; paging = p2; files = result.1 }
  if is_zero result.0
      then some (
        create_success,
        record k2 {
          process_list = store list p_index (started_pcb (list p_index));
          process_frame_map = store k2.process_frame_map p_index true;
          active_process_count = u32 (k2.active_process_count + 1);
        },
      )
      else do
        destroyed ← process_destroy pid (record k2 { paging = paging_use_page_directory temp p2 })
        some (fail_fs_read_failure, destroyed.1)

-- The steps once the number of frames is known.
unfoldable pub create_with : Bytes → ℕ → Request → ℕ → Kernel → Option (ℕ × Kernel)
unfolding create_at
create_with garbage list_address request page_frame_count_needed k =
    if not (paging_allocate_check page_frame_count_needed k.paging)
      || ltb process_page_frame_count_max page_frame_count_needed
    then some (fail_not_enough_memory, k)
    else elim (process_list_get_inactive_index k) [
      | pos p_index ↦ create_at garbage list_address request p_index k
      | negsuc n ↦ none
    ]

unfoldable pub process_create_user_process : Bytes → ℕ → Request → Kernel → Option (ℕ × Kernel)
unfolding create_with
process_create_user_process garbage list_address request k =
    if leb process_count_max k.active_process_count
    then some (fail_max_process_exceeded, k)
    else if leb kernel_virtual_address_base request.buf
    then some (fail_invalid_entrypoint, k)
    else do
      count ← ceil_div (to_int (u32 (request.buffer_size + page_frame_size))) page_frame_size
      create_with garbage list_address request (of_int count) k
