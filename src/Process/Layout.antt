-- ===== src/Process/Layout.antt =====
-- The constants and structures of src/header/process/process.h, and the state of src/process.c.
use os_2024_operatingsalsa.Base.{ℕ, Array, Bool}
use os_2024_operatingsalsa.Fat32.Layout.{Fs}
use os_2024_operatingsalsa.Paging.{Paging}

abbrev pub process_page_frame_count_max : ℕ
process_page_frame_count_max = 8

abbrev pub process_count_max : ℕ
process_count_max = 16

abbrev pub cpu_eflags_base_flag : ℕ
cpu_eflags_base_flag = 0x2

abbrev pub cpu_eflags_flag_interrupt_enable : ℕ
cpu_eflags_flag_interrupt_enable = 0x200

abbrev pub create_success : ℕ
create_success = 0

abbrev pub fail_max_process_exceeded : ℕ
fail_max_process_exceeded = 1

abbrev pub fail_invalid_entrypoint : ℕ
fail_invalid_entrypoint = 2

abbrev pub fail_not_enough_memory : ℕ
fail_not_enough_memory = 3

abbrev pub fail_fs_read_failure : ℕ
fail_fs_read_failure = 4

pub record CpuRegister : Type 0 where
  pub edi : ℕ
  pub esi : ℕ
  pub ebp : ℕ
  pub esp : ℕ
  pub ebx : ℕ
  pub edx : ℕ
  pub ecx : ℕ
  pub eax : ℕ
  pub gs : ℕ
  pub fs : ℕ
  pub es : ℕ
  pub ds : ℕ

abbrev pub zero_registers : CpuRegister
zero_registers = record {
  edi = 0;
  esi = 0;
  ebp = 0;
  esp = 0;
  ebx = 0;
  edx = 0;
  ecx = 0;
  eax = 0;
  gs = 0;
  fs = 0;
  es = 0;
  ds = 0;
}

pub record Context : Type 0 where
  pub cpu : CpuRegister
  pub eip : ℕ
  pub eflags : ℕ
  pub page_directory_virtual_addr : ℕ

pub data ProcessState : Type 0 where
  running : ProcessState
  ready : ProcessState
  waiting : ProcessState

pub record ProcessControlBlock : Type 0 where
  pub pid : ℕ
  pub state : ProcessState
  pub context : Context
  pub virtual_addr_used : Array ℕ
  pub page_frame_used_count : ℕ

-- `_process_list`, `next_pid` and `process_manager_state`, with the state of the parts that they use.
pub record Kernel : Type 0 where
  pub process_list : Array ProcessControlBlock
  pub next_pid : ℕ
  pub process_frame_map : Array Bool
  pub active_process_count : ℕ
  pub paging : Paging
  pub files : Fs
