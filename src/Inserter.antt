-- ===== src/Inserter.antt =====
-- The file operations of the main function of src/external/external-inserter.c. The files that it reads are
-- the disk and the memory of the state, and the name and the number that `sscanf` finds are arguments.
use os_2024_operatingsalsa.Base.{
  some, ◌>>=◌, ℤ, Bytes, ℕ, String, Option, if◌then◌else◌, int_eq, chars, [],
}
use os_2024_operatingsalsa.Fat32.Layout.{Fs}
use os_2024_operatingsalsa.Fat32.Format.{initialize_filesystem_fat32}
use os_2024_operatingsalsa.Fat32.Ops.{write}

-- The message for a code of `write`.
abbrev pub insert_message : ℤ → String
insert_message retcode =
    if int_eq retcode 0
    then "Write success"
    else if int_eq retcode 1
    then "Error: File/folder name already exist"
    else if int_eq retcode 2
    then "Error: Invalid parent cluster"
    else "Error: Unknown error"

unfoldable pub insert : Bytes → Bytes → ℕ → ℕ → Fs → Option (String × Fs)
unfolding insert_message
insert garbage name parent filesize fs = do
  (retcode, after) ←
      write garbage
        (record {
          buf = 0;
          name = name;
          ext = chars [];
          parent_cluster_number = parent;
          buffer_size = filesize;
        })
        (initialize_filesystem_fat32 garbage fs)
  some (insert_message retcode, after)
