-- ===== src/Tests/ShellFiles.antt =====
-- Applications of the theorems about the commands of src/user-shell.c that work on files.
use os_2024_operatingsalsa.Base.{
  refl, some, none, arith, chars, Bytes, ◌≡◌, ◌+◌, ℕ, text, ◌<◌, if◌then◌else◌, ◌≤◌, ◌==◌, load16,
  ◌∙◌, ◌||◌, nth-length, ◌≢◌, ◌%◌,
}
use os_2024_operatingsalsa.Shell.State.{Shell, literal, new_request, current_cluster, strings_equal}
use os_2024_operatingsalsa.Shell.Folders.{cwd_up, cwd_down, ls, mkdir}
use os_2024_operatingsalsa.Shell.Folders.Path.{IsPath, IsFolderName, cwd_up-cwd_down}
use os_2024_operatingsalsa.Shell.Folders.Make.{mkdir-IsFolder}
use os_2024_operatingsalsa.Shell.ReadOnly.{files}
use os_2024_operatingsalsa.Shell.ReadOnly.Returns.{ls-Listed, Listed}
use os_2024_operatingsalsa.Shell.ReadOnly.Execute.{execute_command-Keeps}
use os_2024_operatingsalsa.Shell.Remove.Endless.{rm_helper-endless, IsOwnParent, table_of}
use os_2024_operatingsalsa.Fat32.Ops.Kept.{Keeps}
use os_2024_operatingsalsa.Tests.Fat32.{zeros, small_fs, small_map, small_disk}
use os_2024_operatingsalsa.Tests.Shell.{shell, chars-inside, letter, chars-nth}
use os_2024_operatingsalsa.Shell.Commands.{execute_command}
use os_2024_operatingsalsa.Shell.Input.Typed.{ArePlain}
use os_2024_operatingsalsa.Fat32.Layout.{
  entry_cluster, Request, Fs, entry_count, cluster_size, attr_subdirectory, uattr_not_empty,
  entry_at,
}
use os_2024_operatingsalsa.Shell.Remove.{rm_helper, entry_name}
use os_2024_operatingsalsa.Fat32.Ops.{free_cluster, folder_not_empty}
use os_2024_operatingsalsa.StringOps.{strlen, memcmp, memcpy}
use os_2024_operatingsalsa.Fat32.Alloc.Parent.{IsFolder}
use os_2024_operatingsalsa.Fat32.Directory.{free_slot, table_not_empty}
use os_2024_operatingsalsa.Fat32.Ops.Folder.{CanMake}
use os_2024_operatingsalsa.Fat32.Cluster.{read_clusters}
use os_2024_operatingsalsa.Fat32.Directory.Find.{HasName}
use os_2024_operatingsalsa.Disk.{read_blocks}
use os_2024_operatingsalsa.Fat32.Ops.Stored.{parent_table}
use os_2024_operatingsalsa.Tests.Devices.{last_column}
use os_2024_operatingsalsa.Fat32.Cluster.Laws.{read_clusters_lem}

root-IsPath : IsPath (literal "/root/") 6
unfolding chars
root-IsPath = record {
  string = record {
    inside = λ j h. chars-inside (text "/root/") plain_root (0 + j) (omega arith);
    terminator = refl;
  };
  not_empty = omega arith;
  short = omega arith;
  slash = refl;
  zeros = λ x h l. chars-nth (text "/root/") x ∙ nth-length (text "/root/") x (omega arith);
}
  where
    plain_root : ArePlain (text "/root/")
    plain_root = (
      letter _ (omega arith),
      (
        letter _ (omega arith),
        (
          letter _ (omega arith),
          (letter _ (omega arith), (letter _ (omega arith), (letter _ (omega arith), tt))),
        ),
      ),
    )

folder_a : IsFolderName (literal "a") 0 1
unfolding chars
folder_a = record {
  string = record {
    inside = λ j h. let z : 0 + j ≡ 0 = omega arith in rw z (λ e. omega (arith, e));
    terminator = refl;
  };
  not_empty = omega arith;
  no_slash = λ j h. let z : 0 + j ≡ 0 = omega arith in rw z (λ e. omega (arith, e));
}

cwd_up-cwd_down_example :
    (down : Bytes) × (up : Bytes) × (cwd_down (literal "/root/") (literal "a") 0 ≡ some down)
    × IsPath down (6 + 1 + 1)
    × (cwd_up down ≡ some up)
    × ((x : ℕ) → x < 80 → up x ≡ literal "/root/" x)
cwd_up-cwd_down_example =
    cwd_up-cwd_down (literal "/root/") 6 root-IsPath (literal "a") 0 1 folder_a (omega arith)

ls-Listed_example : Listed zeros shell (ls zeros shell)
ls-Listed_example = ls-Listed zeros shell

execute_command-Keeps_example : Keeps files small_fs (execute_command 3 zeros (literal "ls") shell)
unfolding strings_equal strlen memcmp chars
execute_command-Keeps_example =
    execute_command-Keeps 3 zeros (literal "ls") shell refl refl refl refl

-- The arguments `mkdir a`; only the second row is read.
abbrev mkdir_args : Bytes
mkdir_args x = if x == 80 then b'a' else 0

abbrev mkdir_request : Request
mkdir_request = new_request mkdir_args 80 (current_cluster shell) 0

abbrev mkdir_fs : Fs
mkdir_fs = record small_fs { ram = shell.current_folder }

in_root : current_cluster shell ≡ 2
unfolding current_cluster entry_cluster load16
in_root = refl

mkdir_table :
    (x : ℕ) → x < cluster_size → parent_table zeros mkdir_request mkdir_fs x ≡ small_disk (4096 + x)
unfolding current_cluster entry_cluster load16
mkdir_table x h = ground (arith, read_clusters_lem small_disk zeros 0 2 1 x)

no_folder :
    (k : ℕ)
    → 1 ≤ k
    → k < entry_count
    → ¬ HasName mkdir_request (parent_table zeros mkdir_request mkdir_fs) k
no_folder k l h v = ground (arith, v.name 0, mkdir_table (entry_at k))

mkdir_slot : free_slot (parent_table zeros mkdir_request mkdir_fs) ≡ some 2
unfolding current_cluster entry_cluster load16 free_slot read_clusters read_blocks memcpy
mkdir_slot = refl

mkdir_place : free_cluster small_map ≡ some 3
unfolding free_cluster
mkdir_place = refl

mkdir-CanMake : CanMake zeros mkdir_request mkdir_fs 3 2
unfolding current_cluster entry_cluster load16
mkdir-CanMake = record {
  folder = record {
    lower = omega arith;
    upper = omega arith;
    last = refl;
    self = refl;
    parent = refl;
  };
  no_bytes = refl;
  fresh = no_folder;
  place = mkdir_place;
  place_inside = (omega arith, omega arith, refl);
  room = mkdir_slot;
  room_inside = (omega arith, omega arith);
}

mkdir-IsFolder_example :
    (s1 : Shell) × (mkdir zeros mkdir_args shell ≡ some s1)
    × IsFolder s1.system.files 3
    × IsFolder s1.system.files 2
    × ((x : ℕ) → x ≢ 3 → s1.system.files.cluster_map x ≡ small_map x)
    × ((m : Bytes) → entry_cluster (read_clusters s1.system.files.storage m 0 2 1) 2 ≡ 3 % 256)
    × (s1.system.terminal ≡ last_column)
    × (s1.system.keyboard ≡ shell.system.keyboard)
    × (s1.cwd ≡ literal "/root/")
unfolding current_cluster entry_cluster load16
mkdir-IsFolder_example = mkdir-IsFolder zeros mkdir_args shell 3 2 (omega arith) refl mkdir-CanMake

-- A root folder with a folder in it.
abbrev full_root : Bytes
full_root x =
    if x == 4096
    then b'r'
    else if (x == 4107) || (x == 4139)
    then attr_subdirectory
    else if (x == 4128) || (x == 4129)
    then b'.'
    else if (x == 4140) || (x == 4172)
    then uattr_not_empty
    else if x == 4154
    then 2
    else 0

abbrev full_shell : Shell
full_shell = record shell {
  system = record shell.system { files = record small_fs { storage = full_root } };
}

root-IsOwnParent : IsOwnParent zeros 2 (record small_fs { storage = full_root })
unfolding entry_cluster load16 read_clusters read_blocks memcpy folder_not_empty table_not_empty
root-IsOwnParent = record {
  folder = record {
    lower = omega arith;
    upper = omega arith;
    last = refl;
    self = refl;
    parent = refl;
  };
  other = λ v. omega (arith, v.name 0 (omega arith));
  up = refl;
  used = refl;
  full = refl;
}

rm_helper-endless_example :
    rm_helper 100 zeros (entry_name (table_of zeros full_shell.system.files 2) 1) 2 2 full_shell
    ≡ none
rm_helper-endless_example = rm_helper-endless zeros 2 100 full_shell root-IsOwnParent
