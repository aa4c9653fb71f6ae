-- ===== src/Shell/Folders/Make.antt =====
-- `mkdir` of src/user-shell.c makes a folder.
use os_2024_operatingsalsa.Base.{refl, some, Bytes, ℕ, ◌≢◌, ◌≡◌, ◌%◌, ne→==, eq→==}
use os_2024_operatingsalsa.Fat32.Layout.{Fs, entry_cluster}
use os_2024_operatingsalsa.Fat32.Cluster.{read_clusters}
use os_2024_operatingsalsa.Fat32.Alloc.Parent.{IsFolder}
use os_2024_operatingsalsa.Fat32.Ops.Folder.{CanMake, write-IsFolder}
use os_2024_operatingsalsa.Shell.State.{Shell, file_syscall, new_request, current_cluster}
use os_2024_operatingsalsa.Shell.Folders.{mkdir, mkdir_loop}

IsFolder-ram :
    (fs : Fs) (ram : Bytes) (n : ℕ) → IsFolder fs n → IsFolder (record fs { ram = ram }) n
IsFolder-ram fs ram n v = record {
  lower = v.lower;
  upper = v.upper;
  last = v.last;
  self = v.self;
  parent = v.parent;
}

-- `mkdir` with one argument, whose first eight bytes no entry of the current folder has from entry 1 on,
-- an empty cluster `c` and a free entry `i`: it returns, cluster `c` is a valid folder and the current
-- folder still is one, no other entry of the table of clusters has changed, entry `i` on the disk
-- records `c` modulo 256, and the screen, the path and the keyboard are as before.
pub mkdir-IsFolder :
    (garbage args : Bytes) (s : Shell) (c i : ℕ)
    → args 80 ≢ 0
    → args 160 ≡ 0
    → CanMake garbage
        (new_request args 80 (current_cluster s) 0)
        (record s.system.files { ram = s.current_folder })
        c
        i
    → (s1 : Shell) × (mkdir garbage args s ≡ some s1)
      × IsFolder s1.system.files c
      × IsFolder s1.system.files (current_cluster s)
      × ((x : ℕ) → x ≢ c → s1.system.files.cluster_map x ≡ s.system.files.cluster_map x)
      × ((m : Bytes)
          → entry_cluster (read_clusters s1.system.files.storage m 0 (current_cluster s) 1) i
            ≡ c % 256)
      × (s1.system.terminal ≡ s.system.terminal)
      × (s1.system.keyboard ≡ s.system.keyboard)
      × (s1.cwd ≡ s.cwd)
unfolding mkdir mkdir_loop file_syscall
mkdir-IsFolder garbage args s c i one two can =
    let r = new_request args 80 (current_cluster s) 0 in
    let (fs1, returns, new, old, same, entry) =
      write-IsFolder garbage r (record s.system.files { ram = s.current_folder }) c i can in
    rw (ne→== _ _ one, eq→== _ _ two, returns)
      (_, refl, IsFolder-ram fs1 _ c new, IsFolder-ram fs1 _ _ old, same, entry, refl, refl, refl)
