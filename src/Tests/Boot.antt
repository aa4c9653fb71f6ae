-- ===== src/Tests/Boot.antt =====
-- The kernel started from a disk with a shell on it.
use os_2024_operatingsalsa.Base.{
  minus_one, refl, some, pos, ℕ, Bytes, ◌≡◌, ◌<◌, ◌+◌, ◌-◌, false, if◌then◌else◌, ◌==◌, ltb, arith,
  chars, text, words_bytes, bytes_words, load32, load16, byte_of, true, ◌≤◌, ◌/◌, u32, ◌^◌,
}
use os_2024_operatingsalsa.StringOps.{memcmp, memcpy}
use os_2024_operatingsalsa.StringOps.Compare.{memcmp-eq_zero}
use os_2024_operatingsalsa.Disk.{read_blocks}
use os_2024_operatingsalsa.Fat32.Layout.{
  Request, Fs, entry_cluster, attr_subdirectory, uattr_not_empty, packed,
}
use os_2024_operatingsalsa.Fat32.Format.{
  load_map, initialize_filesystem_fat32, is_empty_storage, fs_signature,
}
use os_2024_operatingsalsa.Fat32.Cluster.{read_clusters}
use os_2024_operatingsalsa.Fat32.Cluster.Laws.{read_clusters_lem}
use os_2024_operatingsalsa.Fat32.Ops.{read, read_chain, read_entry, load_parent}
use os_2024_operatingsalsa.Fat32.Alloc.Parent.{IsFolder, is_valid_parent_cluster_iff}
use os_2024_operatingsalsa.Fat32.Directory.{find_entry, entry_matches}
use os_2024_operatingsalsa.Setup.{shell_request, Machine, kernel_setup}
use os_2024_operatingsalsa.Setup.Boot.{kernel_setup-started, kernel_setup-no_shell, mounted}
use os_2024_operatingsalsa.Process.Destroy.{IsTable}
use os_2024_operatingsalsa.Process.Create.{CanCreate}
use os_2024_operatingsalsa.Descriptors.{empty_idt, global_descriptor_table}
use os_2024_operatingsalsa.Descriptors.Gates.{IsGate}
use os_2024_operatingsalsa.Descriptors.Segments.{base_of}
use os_2024_operatingsalsa.Tests.Process.{idle, idle-IsTable}
use os_2024_operatingsalsa.Process.{
  fail_fs_read_failure, fail_max_process_exceeded, process_count_max, process_create_user_process,
}
use os_2024_operatingsalsa.Fat32.Alloc.{is_valid_parent_cluster}
use os_2024_operatingsalsa.Tests.Paging.{list_at}
use os_2024_operatingsalsa.Tests.Devices.{last_column}
use os_2024_operatingsalsa.Tests.Descriptors.{stubs}
use os_2024_operatingsalsa.Tests.Fat32.{zeros}

-- The table of clusters: the root at 2, and the file of one cluster at 3.
abbrev boot_map : ℕ → ℕ
boot_map x = if ltb x 4 then 0x0FFFFFFF else 0

-- The root: two folders, and the file `shell` of 5 bytes.
abbrev boot_root : Bytes
boot_root x =
    if x == 11
    then attr_subdirectory
    else if x == 43
    then attr_subdirectory
    else if x == 76
    then uattr_not_empty
    else if x == 90
    then 3
    else if x == 92
    then 5
    else if ltb x 64
    then 0
    else if ltb x 72
    then chars (text "shell") (x - 64)
    else 0

abbrev boot_disk : Bytes
boot_disk x =
    if ltb x 512
    then fs_signature x
    else if ltb x 2048
    then 0
    else if ltb x 4096
    then words_bytes boot_map (x - 2048)
    else boot_root (x - 4096)

abbrev boot_fs : Fs
boot_fs = record { cluster_map = zeros; dir_table_buf = zeros; storage = boot_disk; ram = zeros }

abbrev sector : Bytes
sector = read_clusters boot_disk zeros 0 0 1

not_empty : is_empty_storage zeros boot_fs ≡ false
unfolding is_empty_storage
not_empty =
    let same = (memcmp-eq_zero sector 0 fs_signature 0 512).1 (λ x l h. agree x h) in rw same refl
  where
    agree : (x : ℕ) → x < 512 → sector (0 + x) ≡ fs_signature (0 + x)
    agree x h = ground (arith, read_clusters_lem boot_disk zeros 0 0 1 (0 + x))

abbrev mounted_fs : Fs
mounted_fs = load_map boot_fs

mounted_root : mounted_fs.cluster_map 2 ≡ 0x0FFFFFFF
unfolding load_map bytes_words load32 words_bytes read_clusters read_blocks memcpy byte_of
mounted_root = refl

mounted_shell : mounted_fs.cluster_map 3 ≡ 0x0FFFFFFF
unfolding load_map bytes_words load32 words_bytes read_clusters read_blocks memcpy byte_of
mounted_shell = refl

mounted-IsFolder : IsFolder mounted_fs 2
unfolding load_map
mounted-IsFolder = record {
  lower = omega arith;
  upper = omega arith;
  last = mounted_root;
  self = refl;
  parent = refl;
}

found_shell : find_entry shell_request (read_clusters boot_disk zeros 0 2 1) ≡ some 2
unfolding find_entry entry_matches packed memcmp read_clusters read_blocks memcpy chars byte_of
found_shell = refl

abbrev root_folder : Bytes
root_folder = read_clusters boot_disk zeros 0 2 1

entry_is_read :
    (files : Fs) × (read_entry shell_request (load_parent shell_request mounted_fs) 2
      ≡ some (pos 0, files))
unfolding read_entry load_parent read_chain load32 load16 entry_cluster read_clusters read_blocks
    memcpy load_map bytes_words words_bytes byte_of
entry_is_read = (_, refl)

read_mounted : (files : Fs) × (read zeros shell_request mounted_fs ≡ some (pos 0, files))
unfolding read load_parent load_map
read_mounted =
    let valid = (is_valid_parent_cluster_iff zeros mounted_fs 2).1 mounted-IsFolder in
    rw (valid, found_shell) entry_is_read

mounts : initialize_filesystem_fat32 zeros boot_fs ≡ mounted_fs
unfolding initialize_filesystem_fat32
mounts = rw not_empty refl

shell_is_read :
    (files : Fs) × (read zeros shell_request (initialize_filesystem_fat32 zeros boot_fs)
      ≡ some (pos 0, files))
shell_is_read = rw mounts read_mounted

abbrev machine : Machine
machine = record {
  terminal = last_column;
  idt = empty_idt;
  gdt = global_descriptor_table;
  tss_esp0 = 0;
  kernel = idle boot_fs;
}

shell-CanCreate : (fs : Fs) → CanCreate shell_request (mounted zeros (idle fs))
shell-CanCreate fs = record {
  table = idle-IsTable (initialize_filesystem_fat32 zeros fs);
  room = omega arith;
  entry = omega arith;
  size = omega arith;
  frame = 1;
  frame_inside = omega arith;
  frame_free = refl;
  small = omega arith;
}

kernel_setup-started_example :
    (i : ℕ) × (m1 : Machine) × (kernel_setup zeros list_at stubs 0xFF 0xC0123456 0xC0400000 machine
      ≡ some (0, m1))
    × (m1.kernel.process_frame_map i ≡ true)
    × ((m1.kernel.process_list i).pid ≡ 1)
    × IsTable m1.kernel
    × ((x : ℕ) → x < 0x30 → IsGate (stubs x) 0 (m1.idt x))
    × ((x : ℕ) → 0x30 ≤ x → x < 64 → IsGate (stubs x) 3 (m1.idt x))
    × (base_of (m1.gdt (0x28 / 8)) ≡ 0xC0123456)
    × (m1.tss_esp0 ≡ u32 (0xC0400000 + 8))
    × ((x : ℕ) → x < 2000 → m1.terminal.cells x ≡ 0xF00)
kernel_setup-started_example =
    kernel_setup-started zeros list_at stubs 0xFF 0xC0123456 0xC0400000 machine shell_is_read.0 refl
      refl (λ i. omega arith) (omega arith) (shell-CanCreate boot_fs) shell_is_read.1

-- A disk with the signature and nothing else, so that not even the root is a folder.
abbrev bare_fs : Fs
bare_fs = record boot_fs { storage = λ x. if ltb x 512 then fs_signature x else 0 }

abbrev bare_machine : Machine
bare_machine = record machine { kernel = idle bare_fs }

abbrev bare_sector : Bytes
bare_sector = read_clusters bare_fs.storage zeros 0 0 1

bare_signature : is_empty_storage zeros bare_fs ≡ false
unfolding is_empty_storage
bare_signature =
    let same = (memcmp-eq_zero bare_sector 0 fs_signature 0 512).1 (λ x l h. agree x h) in
    rw same refl
  where
    agree : (x : ℕ) → x < 512 → bare_sector (0 + x) ≡ fs_signature (0 + x)
    agree x h = ground (arith, read_clusters_lem bare_fs.storage zeros 0 0 1 (0 + x))

bare_mounts : initialize_filesystem_fat32 zeros bare_fs ≡ load_map bare_fs
unfolding initialize_filesystem_fat32
bare_mounts = rw bare_signature refl

bare_root : is_valid_parent_cluster zeros (load_map bare_fs) 2 ≡ false
unfolding is_valid_parent_cluster load_map bytes_words load32 read_clusters read_blocks memcpy
bare_root = refl

read_bare : read zeros shell_request (load_map bare_fs) ≡ some (minus_one, load_map bare_fs)
unfolding read
read_bare = rw bare_root refl

kernel_setup-no_shell_example :
    (m1 : Machine) × (kernel_setup zeros list_at stubs 0xFF 0xC0123456 0xC0400000 bare_machine
      ≡ some (fail_fs_read_failure, m1))
    × ((j : ℕ) → j < process_count_max → m1.kernel.process_frame_map j ≡ false)
    × (m1.kernel.active_process_count ≡ 2 ^ 32 - 1)
    × ((g2 : Bytes) (r2 : Request)
        → process_create_user_process g2 list_at r2 m1.kernel
          ≡ some (fail_max_process_exceeded, m1.kernel))
kernel_setup-no_shell_example =
    kernel_setup-no_shell zeros list_at stubs 0xFF 0xC0123456 0xC0400000 bare_machine minus_one
      (load_map bare_fs) refl (shell-CanCreate bare_fs) (rw bare_mounts read_bare) refl
