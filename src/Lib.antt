-- ===== src/Lib.antt =====
-- The verification library of OperatingSalsa, a 32-bit x86 teaching kernel: its file system, memory
-- manager, process list, and drivers of the screen, the keyboard and the interrupt controller.
--
-- How the parts of the program interact. The kernel keeps a file system in clusters of 2048 bytes on
-- a disk (src/filesystem/fat32.c), with the memory and string functions of src/stdlib/string.c. User
-- programs reach it, the screen and the keyboard by system calls (src/interrupt.c). A process
-- (src/process.c) takes a page directory and a frame of memory (src/paging.c) and reads its program
-- from the file system. The tool src/external/external-inserter.c runs the same file system over an
-- image of the disk in memory.
--
-- Which module models which code:
--   Base: what the others share. Arrays of C are functions of the index; unsigned words are natural
--     numbers with their wrap-around written out; results that may be negative are in ℤ.
--   StringOps: src/stdlib/string.c, function by function, on a memory that is one byte array.
--   Disk: read_blocks and write_blocks of src/external/external-inserter.c, over its image of the disk.
--   Ata: src/disk.c, over a device at the ports: Ata.Device has the laws that the ATA documents give for
--     one, with its busy times and its requests for words, which are hypotheses, since the device is no
--     code of the repository.
--   Fat32.Layout: src/header/filesystem/fat32.h. A directory table is a byte array, in which the fields of
--     the packed entries are read and written at their offsets; Fs is the driver's state with the
--     disk and the memory of the caller.
--   Fat32.Cluster, Fat32.Directory, Fat32.Alloc, Fat32.Format, Fat32.Ops: src/filesystem/fat32.c, in
--     the order of its helpers, insert_directory and the scans of a table, first_fit and
--     is_valid_parent_cluster, the formatting and mounting of a disk, and read, read_directory,
--     write, delete and update_directory_table.
--   Paging: src/paging.c. The page directories are a store over their addresses.
--   Process: src/process.c, over the states of Paging and Fat32. Paging.Layout and Process.Layout have
--     the structures of their headers.
--   Terminal: src/framebuffer.c, and putchar and puts of src/interrupt.c.
--   Descriptors: the tables of src/gdt.c and src/idt.c. Setup: kernel_setup of src/kernel.c,
--     up to the jump into the first process.
--   Inserter: the file operations of the main function of src/external/external-inserter.c.
--   Keyboard: src/keyboard.c. Pic: the interrupt controller in src/interrupt.c.
--   Syscall: the dispatch of interrupts and system calls in src/interrupt.c, over the states of Fat32,
--     Terminal and Keyboard.
--   Shell: src/user-shell.c, over the state of Syscall. Shell.State has the system calls, each of which is
--     the kernel's operation for it; Shell.Input the reading and splitting of a line and of names;
--     Shell.Folders cd, ls and mkdir; Shell.Files cat and cp; Shell.Remove rm; Shell.Search find;
--     Shell.Move mv of folders; Shell.Commands mv, execute_command and main. The buffer that a request
--     points to is an array of its own, and the names that are copied into a request may run over its
--     fields, but what they would write behind the request is not kept.
--   Tests: the theorems applied to small concrete states, and runs of the definitions.
--
-- What `none` is. A C function that reads or writes outside of an array, overflows a signed sum, or
-- follows a chain of clusters that never ends has no result: it is `none`, and no theorem takes it
-- for one. `garbage` is what the stack holds where a function has locals that it does not initialise.
--
-- Bounds on loops. A chain of clusters gets 512 steps, as many as the table has entries: a longer
-- one visits an entry twice and never ends. The loop of delete gets 513, since it empties the
-- entries that it passes. The rounds of first_fit are 512, since each moves the index forward.
-- strlen gets the 2^32 addresses, and where none of them holds a zero its length is 2^32, which no
-- `uint32_t` is: no theorem takes it for the length of a string. The searches without a bound in
-- the source get the entries that are left in their array, and end in `none` behind it. rmHelper,
-- getFullPath, DFSfind and execute_command call themselves and get fuel for the depth of the calls,
-- since the source does not bound it; the theorems about them hold for every fuel. A wait of
-- src/disk.c has fuel for its polls; the latency of the device is enough. All other loops recurse
-- on the rounds that are left.
--
-- What is not modelled. The translation of addresses: the memory of a caller is one array, and the
-- flush of the translation cache has no counterpart. The assembly files and src/portio.c, which are
-- the processor's instructions; the instructions that load a table, a segment or a stack; and the
-- files that the inserter's main function reads and writes.
pub mod Base
pub mod StringOps
pub mod Descriptors
pub mod Disk
pub mod Ata
pub mod Fat32
pub mod Paging
pub mod Process
pub mod Terminal
pub mod Keyboard
pub mod Pic
pub mod Syscall
pub mod Inserter
pub mod Setup
pub mod Shell
pub mod Tests
