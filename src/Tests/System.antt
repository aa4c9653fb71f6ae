-- ===== src/Tests/System.antt =====
-- Applications of the theorems about the system calls of src/interrupt.c.
use os_2024_operatingsalsa.Base.{refl, some, ℕ, ◌≡◌, load32, minus_one, arith, ◌<◌, ◌⊎◌, ◌≤◌}
use os_2024_operatingsalsa.Fat32.Ops.{read}
use os_2024_operatingsalsa.Fat32.Alloc.{is_valid_parent_cluster}
use os_2024_operatingsalsa.Process.{of_int, zero_registers}
use os_2024_operatingsalsa.Syscall.{main_interrupt_handler, System, InterruptFrame, request_at}
use os_2024_operatingsalsa.Syscall.Dispatch.{reads, main_interrupt_handler-file_call}
use os_2024_operatingsalsa.Tests.Fat32.{zeros, small_fs}
use os_2024_operatingsalsa.Tests.Devices.{last_column, keyboard}

-- A memory of zeros, so that the request at address 0 names cluster 0 as its parent.
abbrev running_system : System
running_system = record {
  files = record small_fs { ram = zeros };
  terminal = last_column;
  keyboard = keyboard;
}

abbrev call : ℕ → InterruptFrame
call number = record {
  cpu = record zero_registers { eax = number; ebx = 0; ecx = 100; edx = 15 };
  int_number = 0x30;
  int_stack = record { error_code = 0; eip = 0; cs = 0; eflags = 0 };
}

no_parent :
    read zeros (request_at zeros 0) running_system.files ≡ some (minus_one, running_system.files)
unfolding read is_valid_parent_cluster load32
no_parent = refl

main_interrupt_handler-file_call_example :
    (s1 : System) × (main_interrupt_handler zeros 0 (call 0) running_system ≡ some s1)
    × (load32 s1.files.ram 100 ≡ of_int minus_one)
    × ((x : ℕ) → (x < 100) ⊎ (104 ≤ x) → s1.files.ram x ≡ 0)
    × (s1.files.storage ≡ running_system.files.storage)
    × (s1.files.cluster_map ≡ running_system.files.cluster_map)
    × (s1.terminal ≡ last_column)
    × (s1.keyboard ≡ keyboard)
main_interrupt_handler-file_call_example =
    main_interrupt_handler-file_call zeros (call 0) running_system 0 0 (read zeros) minus_one
      running_system.files reads refl refl no_parent (omega arith)
