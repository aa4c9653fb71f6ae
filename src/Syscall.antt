-- ===== src/Syscall.antt =====
-- `syscall` and `main_interrupt_handler` of src/interrupt.c. The memory of the caller is the one of the
-- file system's state, and the ports are those of the terminal's.
pub mod Dispatch
use os_2024_operatingsalsa.Base.{
  refl, zero, suc, some, none, ◌>>=◌, pos, negsuc, ℕ, Option, Bytes, if◌then◌else◌, load32, store32,
  ◌+◌, ◌==◌, u8,
}
use os_2024_operatingsalsa.Fat32.Layout.{Request, Fs}
use os_2024_operatingsalsa.Fat32.Ops.{
  read, read_directory, write, delete, update_directory_table, Outcome,
}
use os_2024_operatingsalsa.Process.{CpuRegister, of_int}
use os_2024_operatingsalsa.Terminal.{Terminal, putchar, puts}
use os_2024_operatingsalsa.Keyboard.{
  KeyboardDriverState, keyboard_isr, get_keyboard_buffer, keyboard_state_activate,
}

pub record InterruptStack : Type 0 where
  pub error_code : ℕ
  pub eip : ℕ
  pub cs : ℕ
  pub eflags : ℕ

pub record InterruptFrame : Type 0 where
  pub cpu : CpuRegister
  pub int_number : ℕ
  pub int_stack : InterruptStack

pub record System : Type 0 where
  pub files : Fs
  pub terminal : Terminal
  pub keyboard : KeyboardDriverState

-- `*(struct FAT32DriverRequest*) x`.
abbrev pub request_at : Bytes → ℕ → Request
request_at ram x = record {
  buf = load32 ram x;
  name = λ k. ram (x + 4 + k);
  ext = λ k. ram (x + 12 + k);
  parent_cluster_number = load32 ram (x + 15);
  buffer_size = load32 ram (x + 19);
}

-- `*((uint32_t*) ecx) = ` the code of a file operation on the request at `ebx`.
pub file_call : (Request → Fs → Outcome) → InterruptFrame → System → Option System
file_call operation frame s = do
  result ← operation (request_at s.files.ram frame.cpu.ebx) s.files
  some (record s {
    files = record result.1 { ram = store32 result.1.ram frame.cpu.ecx (of_int result.0) };
  })

-- Call 4.
pub keyboard_call : InterruptFrame → System → System
keyboard_call frame s =
    let (ram, keyboard) = get_keyboard_buffer frame.cpu.ebx s.files.ram s.keyboard in
    record s { files = record s.files { ram = ram }; keyboard = keyboard }

unfoldable pub syscall : Bytes → InterruptFrame → System → Option System
unfolding file_call keyboard_call
syscall garbage frame s =
    if frame.cpu.eax == 0
    then file_call (read garbage) frame s
    else if frame.cpu.eax == 1
    then file_call (read_directory garbage) frame s
    else if frame.cpu.eax == 2
    then file_call (write garbage) frame s
    else if frame.cpu.eax == 3
    then file_call (delete garbage) frame s
    else if frame.cpu.eax == 4
    then some (keyboard_call frame s)
    else if frame.cpu.eax == 5
    then some (record s { terminal = putchar (u8 frame.cpu.ebx) frame.cpu.ecx s.terminal })
    else if frame.cpu.eax == 6
    then some (record s {
      terminal = puts s.files.ram frame.cpu.ebx frame.cpu.ecx frame.cpu.edx s.terminal;
    })
    else if frame.cpu.eax == 7
    then some (record s { keyboard = keyboard_state_activate s.keyboard })
    else if frame.cpu.eax == 8
    then file_call (update_directory_table garbage) frame s
    else some s

-- The byte that waits at the keyboard's port is the argument `scancode`.
unfoldable pub keyboard_interrupt : ℕ → System → System
keyboard_interrupt scancode s =
    let (keyboard, outs) = keyboard_isr scancode s.terminal.outs s.keyboard in
    record s { terminal = record s.terminal { outs = outs }; keyboard = keyboard }

unfoldable pub main_interrupt_handler : Bytes → ℕ → InterruptFrame → System → Option System
unfolding keyboard_interrupt
main_interrupt_handler garbage scancode frame s =
    if frame.int_number == 0x21
    then some (keyboard_interrupt scancode s)
    else if frame.int_number == 0x30
    then syscall garbage frame s
    else some s
