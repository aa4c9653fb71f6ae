-- ===== src/Shell.antt =====
-- src/user-shell.c.
pub mod State
pub mod Input
pub mod Folders
pub mod Files
pub mod Remove
pub mod Search
pub mod Move
pub mod Commands
pub mod ReadOnly
