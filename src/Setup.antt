-- ===== src/Setup.antt =====
-- `kernel_setup` of src/kernel.c, with the task state segment of src/interrupt.c. The state is the one of
-- the parts that it sets up. The assembly routines that load a register have no counterpart.
pub mod Boot
use os_2024_operatingsalsa.Base.{some, ◌>>=◌, Bytes, chars, ℕ, u32, text, Array, ◌+◌, [], Option}
use os_2024_operatingsalsa.Descriptors.{Idt, Gdt, initialize_idt, gdt_install_tss}
use os_2024_operatingsalsa.Fat32.Layout.{Request, root_cluster_number}
use os_2024_operatingsalsa.Fat32.Format.{initialize_filesystem_fat32}
use os_2024_operatingsalsa.Pic.{pic_remap, activate_keyboard_interrupt}
use os_2024_operatingsalsa.Paging.{paging_use_page_directory}
use os_2024_operatingsalsa.Process.{Kernel, process_create_user_process}
use os_2024_operatingsalsa.Terminal.{Terminal, framebuffer_clear, framebuffer_set_cursor}

pub record Machine : Type 0 where
  pub terminal : Terminal
  pub idt : Idt
  pub gdt : Gdt
  pub tss_esp0 : ℕ
  pub kernel : Kernel

-- `stack_ptr` is the register `ebp`.
unfoldable pub set_tss_kernel_current_stack : ℕ → Machine → Machine
set_tss_kernel_current_stack stack_ptr m = record m { tss_esp0 = u32 (stack_ptr + 8) }

-- The request for the shell.
abbrev pub shell_request : Request
shell_request = record {
  buf = 0;
  name = chars (text "shell");
  ext = chars [];
  parent_cluster_number = root_cluster_number;
  buffer_size = 0x100000;
}

-- What is set up before the first process: the handlers, the mask of the interrupts that is read, the
-- address of the task state segment and the stack are arguments.
unfoldable pub set_up : Bytes → Array ℕ → ℕ → ℕ → ℕ → Machine → Machine
unfolding set_tss_kernel_current_stack
set_up garbage isr_stub_table mask tss_address stack_ptr m =
    let outs = activate_keyboard_interrupt mask (pic_remap m.terminal.outs) in
    let cleared = record m.terminal { outs = outs; cells = framebuffer_clear m.terminal.cells } in
    set_tss_kernel_current_stack stack_ptr (record {
      terminal = framebuffer_set_cursor 0 0 cleared;
      idt = initialize_idt isr_stub_table m.idt;
      gdt = gdt_install_tss tss_address m.gdt;
      tss_esp0 = m.tss_esp0;
      kernel = record m.kernel { files = initialize_filesystem_fat32 garbage m.kernel.files };
    })

-- `paging_use_page_directory` on the directory of the process in slot 0, whether there is one or not.
unfoldable pub use_first : Kernel → Kernel
use_first k = record k {
  paging =
      paging_use_page_directory (k.process_list 0).context.page_directory_virtual_addr k.paging;
}

-- The source ignores the code of the creation, and so a failure; it is kept here beside the state.
unfoldable pub kernel_setup : Bytes → ℕ → Array ℕ → ℕ → ℕ → ℕ → Machine → Option (ℕ × Machine)
unfolding set_up use_first
kernel_setup garbage list_address isr_stub_table mask tss_address stack_ptr m = do
  let ready = set_up garbage isr_stub_table mask tss_address stack_ptr m
  (code, kernel) ← process_create_user_process garbage list_address shell_request ready.kernel
  some (code, record ready { kernel = use_first kernel })
