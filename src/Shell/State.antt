-- ===== src/Shell/State.antt =====
-- What the commands of src/user-shell.c share: the state, the system calls, and the strings.
-- A system call is the operation of the kernel that src/interrupt.c dispatches it to. The buffer of a
-- request is an array of its own, in which the pointer `buf` is 0. `garbage` is what the stack holds
-- where a local is not initialised.
use os_2024_operatingsalsa.Base.{
  none, some, ◌>>=◌, ℕ, String, Bytes, ◌+◌, Option, u8, chars, Bool, if◌then◌else◌, ltb, text, ◌==◌,
  ◌&&◌, ◌-◌, is_zero,
}
use os_2024_operatingsalsa.StringOps.{strlen, memcmp, memcpy, concat}
use os_2024_operatingsalsa.Fat32.Layout.{Fs, Request, packed, entry_cluster, name_at}
use os_2024_operatingsalsa.Fat32.Ops.{Outcome}
use os_2024_operatingsalsa.Process.{of_int}
use os_2024_operatingsalsa.Terminal.{putchar, puts}
use os_2024_operatingsalsa.Syscall.{System, request_at}

-- `current_folder` and `cwd`, and the rest of the system.
pub record Shell : Type 0 where
  pub system : System
  pub current_folder : Bytes
  pub cwd : Bytes

abbrev pub empty : Bytes
empty x = 0

-- A literal of the source, with zeros behind.
abbrev pub literal : String → Bytes
literal s = chars (text s)

-- What a file operation gives back: the code as a `uint32_t`, the buffer, and the state.
pub record Reply : Type 0 where
  pub retcode : ℕ
  pub buffer : Bytes
  pub shell : Shell

unfoldable pub file_syscall : (Request → Fs → Outcome) → Request → Bytes → Shell → Option Reply
file_syscall operation request buffer s = do
  result ← operation request (record s.system.files { ram = buffer })
  some (record {
    retcode = of_int result.0;
    buffer = result.1.ram;
    shell = record s {
      system = record s.system { files = record result.1 { ram = s.system.files.ram } };
    };
  })

-- System call 6, with the string at `str` in an array.
unfoldable pub print : Bytes → ℕ → ℕ → ℕ → Shell → Shell
print ram str count color s = record s {
  system = record s.system { terminal = puts ram str count color s.system.terminal };
}

-- A literal and its length.
unfoldable pub say : String → ℕ → Shell → Shell
unfolding print
say message color s = print (literal message) 0 (strlen (literal message) 0) color s

-- System call 5.
unfoldable pub show : ℕ → ℕ → Shell → Shell
show c color s = record s {
  system = record s.system { terminal = putchar (u8 c) color s.system.terminal };
}

-- `strlen` on a local array of that size: the scan leaves the array where it holds no zero.
unfoldable pub local_strlen : ℕ → Bytes → Option ℕ
local_strlen size array = let n = strlen array 0 in if ltb n size then some n else none

unfoldable pub strings_equal : Bytes → ℕ → Bytes → ℕ → Bool
strings_equal a s b t = (strlen a s == strlen b t) && is_zero (memcmp a s b t (strlen b t))

-- A request with an eight byte name from `names`, and no extension unless one is set.
abbrev pub new_request : Bytes → ℕ → ℕ → ℕ → Request
new_request names at parent size = record {
  buf = 0;
  name = λ k. names (at + k);
  ext = empty;
  parent_cluster_number = parent;
  buffer_size = size;
}

-- A request whose name is copied with a length of its own: a name of more than eight bytes runs over
-- the fields behind it.
unfoldable pub long_request : Request → Bytes → ℕ → ℕ → Request
long_request request names at n = request_at (memcpy (packed request) name_at names at n) 0

-- The cluster of the current folder, from its own entry.
unfoldable pub current_cluster : Shell → ℕ
current_cluster s = entry_cluster s.current_folder 0

-- `concat(result, part, result)`, where `part` is a string of another array.
unfoldable pub append_part : Bytes → Bytes → ℕ → Bytes
append_part result part at =
    concat (λ x. if ltb x 65536 then result x else part (at + (x - 65536))) 0 65536 0
