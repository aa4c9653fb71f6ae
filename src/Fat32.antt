-- ===== src/Fat32.antt =====
-- src/filesystem/fat32.c and src/header/filesystem/fat32.h.
pub mod Layout
pub mod Cluster
pub mod Directory
pub mod Format
pub mod Alloc
pub mod Ops
