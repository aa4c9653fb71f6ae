-- ===== src/Tests.antt =====
-- Concrete inputs on which the theorems are applied, and runs of the definitions.
mod Ata
mod Boot
mod Descriptors
mod Devices
mod Fat32
mod Ops
mod Paging
mod Process
mod Shell
mod ShellFiles
mod Strings
mod System
