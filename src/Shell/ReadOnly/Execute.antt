-- ===== src/Shell/ReadOnly/Execute.antt =====
-- `execute_command` of src/user-shell.c with a command that only reads.
use os_2024_operatingsalsa.Base.{some, zero, suc, ℕ, Bytes, String, ◌≡◌, Bool, false}
use os_2024_operatingsalsa.Fat32.Ops.Kept.{Keeps, Keeps-if}
use os_2024_operatingsalsa.Shell.State.{Shell, strings_equal, literal}
use os_2024_operatingsalsa.Shell.Input.{arg_size}
use os_2024_operatingsalsa.Shell.Commands.{execute_command}
use os_2024_operatingsalsa.Shell.ReadOnly.{files, cd-Keeps, ls-Keeps, cat-Keeps, say-Keeps}
use os_2024_operatingsalsa.Shell.ReadOnly.Finding.{find-Keeps}

-- The first argument is a word.
abbrev pub is_command : Bytes → String → Bool
is_command args name = strings_equal args 0 (literal name) 0

-- Every command but `mkdir`, `cp`, `rm` and `mv` leaves the disk and the table of clusters as they were, a
-- command that does not exist included.
pub execute_command-Keeps :
    (fuel : ℕ) (garbage args : Bytes) (s : Shell)
    → is_command args "mkdir" ≡ false
    → is_command args "cp" ≡ false
    → is_command args "rm" ≡ false
    → is_command args "mv" ≡ false
    → Keeps files (files s) (execute_command fuel garbage args s)
unfolding execute_command
execute_command-Keeps zero garbage args s nm nc nr nv = tt
execute_command-Keeps (suc fuel) garbage args s nm nc nr nv =
    let fs = files s in
    rw (nm, nc, nr, nv)
      (Keeps-if files fs (is_command args "cd") _ _ (cd-Keeps garbage args arg_size s) (
        Keeps-if files fs (is_command args "cat") _ _ (cat-Keeps garbage args arg_size s) (
          Keeps-if files fs (is_command args "ls") _ _ (ls-Keeps garbage s) (
            Keeps-if files fs (is_command args "find") _ (some _)
              (find-Keeps fuel garbage args arg_size s) (say-Keeps "Command not found\n" 0x4 s)))))
