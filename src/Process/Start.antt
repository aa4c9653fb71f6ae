-- ===== src/Process/Start.antt =====
-- How `process_create_user_process` of src/process.c ends, by the result of reading the file.
use os_2024_operatingsalsa.Base.{
  some, pos, Bytes, ℕ, ℤ, Array, store, ◌≡◌, u32, ◌+◌, Option, is_zero,
}
use mathlib.Core.Bool.{Bool, false, true}
use os_2024_operatingsalsa.Paging.{
  paging_create_new_page_directory, paging_allocate_user_page_frame, paging_use_page_directory,
  paging_get_current_page_directory_addr, Paging,
}
use os_2024_operatingsalsa.Paging.Frames.{
  frame, no_frame, Allocated, paging_allocate_user_page_frame-Allocated,
}
use os_2024_operatingsalsa.Process.{
  create_at, process_generate_new_pid, process_destroy, Request, Kernel, Fs, ProcessControlBlock,
  read, started_pcb, new_pcb, create_success, fail_fs_read_failure,
}

module _ (g : Bytes) (list_address : ℕ) (r : Request) (k : Kernel) where
  abbrev page_dir : ℕ
  page_dir = (paging_create_new_page_directory list_address k.paging).0

  abbrev p1 : Paging
  p1 = (paging_create_new_page_directory list_address k.paging).1

  -- The allocation returns.
  pub allocated : (x : Bool × Paging) × (paging_allocate_user_page_frame page_dir r.buf p1 ≡ some x)
  allocated = go (paging_allocate_user_page_frame-Allocated page_dir r.buf p1)
    where
      go :
          {o : Option (Bool × Paging)}
          → Allocated page_dir r.buf p1 o
          → (x : Bool × Paging) × (o ≡ some x)
      go (frame i h z t e m) = (_, e)
      go (no_frame t e) = (_, e)

  abbrev p2 : Paging
  p2 = paging_use_page_directory page_dir allocated.0.1

  abbrev list : ℕ → Array ProcessControlBlock
  list i = store k.process_list i (new_pcb k.next_pid page_dir (k.process_list i))

  abbrev pub loaded : ℕ → Fs → Kernel
  loaded i files = record k {
    next_pid = u32 (k.next_pid + 1);
    process_list = list i;
    paging = p2;
    files = files;
  }

  abbrev pub started : ℕ → Fs → Kernel
  started i files = record (loaded i files) {
    process_list = store (list i) i (started_pcb (list i i));
    process_frame_map = store k.process_frame_map i true;
    active_process_count = u32 (k.active_process_count + 1);
  }

  abbrev pub failed : ℕ → Fs → Kernel
  failed i files = record (loaded i files) {
    paging = paging_use_page_directory (paging_get_current_page_directory_addr p1) p2;
  }

  pub create_at-started :
      (i : ℕ) (files : Fs)
      → read g r k.files ≡ some (pos 0, files)
      → create_at g list_address r i k ≡ some (create_success, started i files)
  unfolding create_at process_generate_new_pid
  create_at-started i files e = rw (allocated.1, e, create_at)

  pub create_at-failed :
      (i : ℕ) (z : ℤ) (files : Fs) (after : Kernel)
      → read g r k.files ≡ some (z, files)
      → is_zero z ≡ false
      → process_destroy k.next_pid (failed i files) ≡ some (true, after)
      → create_at g list_address r i k ≡ some (fail_fs_read_failure, after)
  unfolding create_at process_generate_new_pid
  create_at-failed i z files after e n d = rw (allocated.1, e, create_at) (rw n (rw d))
