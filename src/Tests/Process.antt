-- ===== src/Tests/Process.antt =====
-- Applications of the theorems about src/process.c.
use mathlib.Core.Bool.{false≢true}
use os_2024_operatingsalsa.Base.{
  refl, some, true, false, pos, count_if, chars, ℕ, if◌then◌else◌, ◌≡◌, ◌==◌, ◌∷◌, arith, ◌<◌, ◌+◌,
  ◌≢◌, [], u32_sub, Bytes,
}
use os_2024_operatingsalsa.Fat32.Ops.{read, delete, write}
use os_2024_operatingsalsa.Fat32.Ops.RoundTrip.{read-write}
use os_2024_operatingsalsa.Fat32.Ops.Delete.{read-delete}
use os_2024_operatingsalsa.Tests.Fat32.{
  zeros, counting, small_fs, file_request, file_request-CanStore,
}
use os_2024_operatingsalsa.Tests.Ops.{full_fs, file_request-CanDelete, only_entry}
use os_2024_operatingsalsa.Tests.Paging.{boot, list_at}
use os_2024_operatingsalsa.Process.{
  process_create_user_process, process_destroy, ProcessControlBlock, Kernel, running,
  zero_registers, create_success, fail_fs_read_failure, process_count_max,
  fail_max_process_exceeded,
}
use os_2024_operatingsalsa.Fat32.Layout.{Fs, Request}
use os_2024_operatingsalsa.Process.Create.{CanCreate}
use os_2024_operatingsalsa.Process.Destroy.{IsTable, process_destroy_lem}
use os_2024_operatingsalsa.Process.Outcome.{
  process_create_user_process-IsTable, process_create_user_process-read_failure,
}

abbrev no_process : ProcessControlBlock
no_process = record {
  pid = 0;
  state = running;
  context = record { cpu = zero_registers; eip = 0; eflags = 0; page_directory_virtual_addr = 0 };
  virtual_addr_used = zeros;
  page_frame_used_count = 0;
}

-- No process, and the file system `files`.
abbrev pub idle : Fs → Kernel
idle files = record {
  process_list = λ i. no_process;
  next_pid = 1;
  process_frame_map = λ i. false;
  active_process_count = 0;
  paging = boot;
  files = files;
}

pub idle-IsTable : (files : Fs) → IsTable (idle files)
unfolding count_if
idle-IsTable files = record {
  count = refl;
  active = λ i h a. absurd (false≢true a);
  inactive = λ i h z. refl;
  distinct = λ i j h l n e. absurd (n refl);
  below = λ i h. omega arith;
  positive = omega arith;
  no_frames = λ i h. refl;
}

abbrev program : Request
program = record file_request { buf = 9000 }

program-CanCreate : (files : Fs) → CanCreate program (idle files)
program-CanCreate files = record {
  table = idle-IsTable files;
  room = omega arith;
  entry = omega arith;
  size = omega arith;
  frame = 1;
  frame_inside = omega arith;
  frame_free = refl;
  small = omega arith;
}

stored :
    (fs1 : Fs) × (fs2 : Fs) × (write zeros file_request small_fs ≡ some (pos 0, fs1))
    × (read counting program fs1 ≡ some (pos 0, fs2))
    × ((k : ℕ) → k < 3000 → fs2.ram (9000 + k) ≡ counting (1000 + k))
stored = read-write zeros file_request small_fs 3 file_request-CanStore (omega arith) counting 9000

process_create_user_process-IsTable_example :
    (i : ℕ) × (k1 : Kernel) × (process_create_user_process counting list_at program (idle stored.0)
      ≡ some (create_success, k1))
    × ((idle stored.0).process_frame_map i ≡ false)
    × ((j : ℕ)
        → k1.process_frame_map j ≡ (if j == i then true else (idle stored.0).process_frame_map j))
    × ((k1.process_list i).pid ≡ 1)
    × ((j : ℕ) → j ≢ i → k1.process_list j ≡ no_process)
    × IsTable k1
process_create_user_process-IsTable_example =
    process_create_user_process-IsTable counting list_at program (idle stored.0)
      (program-CanCreate stored.0) stored.1 stored.3

deleted :
    (fs1 : Fs) × (fs2 : Fs) × (delete zeros file_request full_fs ≡ some (pos 0, fs1))
    × (read counting file_request fs1 ≡ some (pos 3, fs2))
unfolding chars
deleted =
    read-delete zeros file_request full_fs 2 (3 ∷ 4 ∷ []) file_request-CanDelete (omega arith) refl
      (omega arith) only_entry counting

file_request-CanCreate : (files : Fs) → CanCreate file_request (idle files)
file_request-CanCreate files = record {
  table = idle-IsTable files;
  room = omega arith;
  entry = omega arith;
  size = omega arith;
  frame = 1;
  frame_inside = omega arith;
  frame_free = refl;
  small = omega arith;
}

process_create_user_process-read_failure_example :
    (k1 : Kernel) × (process_create_user_process counting list_at file_request (idle deleted.0)
      ≡ some (fail_fs_read_failure, k1))
    × ((j : ℕ) → j < process_count_max → k1.process_frame_map j ≡ false)
    × (k1.active_process_count ≡ u32_sub 0 1)
    × ((g2 : Bytes) (r2 : Request)
        → (idle deleted.0).active_process_count ≡ 0
        → process_create_user_process g2 list_at r2 k1 ≡ some (fail_max_process_exceeded, k1))
process_create_user_process-read_failure_example =
    process_create_user_process-read_failure counting list_at file_request (idle deleted.0)
      (file_request-CanCreate deleted.0) (pos 3) deleted.1 deleted.3 refl

-- One process, with id 1, in slot 0.
abbrev one_process : Kernel
one_process = record (idle small_fs) {
  process_list = λ i. if i == 0 then record no_process { pid = 1 } else no_process;
  process_frame_map = λ i. i == 0;
  next_pid = 2;
  active_process_count = 1;
}

one_process-IsTable : IsTable one_process
unfolding count_if
one_process-IsTable = record {
  count = refl;
  active = λ i h a. ground arith;
  inactive = λ i h z. ground arith;
  distinct = λ i j h l n e. ground arith;
  below = λ i h. ground arith;
  positive = omega arith;
  no_frames = λ i h. ground arith;
}

process_destroy_lem_example :
    (k1 : Kernel) × (process_destroy 1 one_process ≡ some (true, k1))
    × IsTable k1
    × ((j : ℕ)
        → j < process_count_max
        → k1.process_frame_map j ≡ (if j == 0 then false else one_process.process_frame_map j))
    × ((j : ℕ) → j ≢ 0 → k1.process_list j ≡ one_process.process_list j)
    × (k1.paging ≡ boot)
process_destroy_lem_example =
    process_destroy_lem one_process one_process-IsTable 0 (omega arith) refl
