-- ===== src/Syscall/Dispatch.antt =====
-- Which parts of the system a call of src/interrupt.c reaches.
use os_2024_operatingsalsa.Base.{
  ℕ_discrete, arith, refl, Bytes, ℕ, ◌≡◌, store32, some, ℤ, ne→==, eq→==, ◌<◌, ◌^◌, load32, ◌⊎◌,
  ◌+◌, ◌≤◌, ◌∙◌, load32-store32, ◌≢◌,
}
use os_2024_operatingsalsa.Fat32.Layout.{Request, Fs}
use os_2024_operatingsalsa.Fat32.Ops.{
  read, read_directory, write, delete, update_directory_table, Outcome,
}
use os_2024_operatingsalsa.Syscall.{
  syscall, file_call, System, InterruptFrame, main_interrupt_handler, request_at, of_int,
  keyboard_call,
}

-- The file operation of a call, by its number in `eax`.
pub data IsFileCall (garbage : Bytes) : ℕ → (Request → Fs → Outcome) → Type 0 where
  reads : IsFileCall garbage 0 (read garbage)
  reads_directory : IsFileCall garbage 1 (read_directory garbage)
  writes : IsFileCall garbage 2 (write garbage)
  deletes : IsFileCall garbage 3 (delete garbage)
  updates : IsFileCall garbage 8 (update_directory_table garbage)

module _ (garbage : Bytes) (frame : InterruptFrame) (s : System) where
  file_call_returns :
      (eax : ℕ) (operation : Request → Fs → Outcome)
      → IsFileCall garbage eax operation
      → frame.cpu.eax ≡ eax
      → syscall garbage frame s ≡ file_call operation frame s
  unfolding syscall
  file_call_returns _ _ reads e = rw e refl
  file_call_returns _ _ reads_directory e = rw e refl
  file_call_returns _ _ writes e = rw e refl
  file_call_returns _ _ deletes e = rw e refl
  file_call_returns _ _ updates e = rw e refl

  -- An interrupt 0x30 with a file operation's number runs it on the request in the caller's memory. Where
  -- the operation returns a code of 32 bits, the call returns, the caller finds the code as a 32-bit
  -- word at the address in `ecx`, all other bytes of the memory, the disk and the table of clusters
  -- are those that the operation left, and the terminal and the keyboard are as before.
  pub main_interrupt_handler-file_call :
      (scancode eax : ℕ) (operation : Request → Fs → Outcome) (code : ℤ) (files : Fs)
      → IsFileCall garbage eax operation
      → frame.int_number ≡ 0x30
      → frame.cpu.eax ≡ eax
      → operation (request_at s.files.ram frame.cpu.ebx) s.files ≡ some (code, files)
      → of_int code < 2 ^ 32
      → (s1 : System) × (main_interrupt_handler garbage scancode frame s ≡ some s1)
        × (load32 s1.files.ram frame.cpu.ecx ≡ of_int code)
        × ((x : ℕ) → (x < frame.cpu.ecx) ⊎ (frame.cpu.ecx + 4 ≤ x) → s1.files.ram x ≡ files.ram x)
        × (s1.files.storage ≡ files.storage)
        × (s1.files.cluster_map ≡ files.cluster_map)
        × (s1.terminal ≡ s.terminal)
        × (s1.keyboard ≡ s.keyboard)
  unfolding main_interrupt_handler file_call store32
  main_interrupt_handler-file_call scancode eax operation code files v i e r small = (
    record s { files = record files { ram = store32 files.ram frame.cpu.ecx (of_int code) } },
    rw (ne→== frame.int_number 0x21 (omega (arith, i)), eq→== _ _ i)
        (file_call_returns eax operation v e ∙ rw r refl),
    load32-store32 files.ram frame.cpu.ecx (of_int code) ∙ omega arith,
    λ x h. ground arith,
    refl,
    refl,
    refl,
    refl,
  )

  keyboard_call-files :
      ((keyboard_call frame s).files.storage ≡ s.files.storage)
      × ((keyboard_call frame s).files.cluster_map ≡ s.files.cluster_map)
  unfolding keyboard_call
  keyboard_call-files = (refl, refl)

  -- Any other system call returns and leaves the disk and the table of clusters alone.
  syscall-other :
      (frame.cpu.eax ≢ 0)
        × (frame.cpu.eax ≢ 1)
        × (frame.cpu.eax ≢ 2)
        × (frame.cpu.eax ≢ 3)
        × (frame.cpu.eax ≢ 8)
      → (s1 : System) × (syscall garbage frame s ≡ some s1)
        × (s1.files.storage ≡ s.files.storage)
        × (s1.files.cluster_map ≡ s.files.cluster_map)
  unfolding syscall
  syscall-other (n0, n1, n2, n3, n8) =
      rw (ne→== _ 0 n0, ne→== _ 1 n1, ne→== _ 2 n2, ne→== _ 3 n3, ne→== _ 8 n8)
        (elim (ℕ_discrete frame.cpu.eax 4) [
          | yes e ↦ rw (eq→== _ 4 e) (_, refl, keyboard_call-files.0, keyboard_call-files.1)
          | no n4 ↦ rw (ne→== _ 4 n4) (elim (ℕ_discrete frame.cpu.eax 5) [
            | yes e ↦ rw (eq→== _ 5 e) (_, refl, refl, refl)
            | no n5 ↦ rw (ne→== _ 5 n5) (elim (ℕ_discrete frame.cpu.eax 6) [
              | yes e ↦ rw (eq→== _ 6 e) (_, refl, refl, refl)
              | no n6 ↦ rw (ne→== _ 6 n6) (elim (ℕ_discrete frame.cpu.eax 7) [
                | yes e ↦ rw (eq→== _ 7 e) (_, refl, refl, refl)
                | no n7 ↦ rw (ne→== _ 7 n7) (_, refl, refl, refl)
              ])
            ])
          ])
        ])
