-- ===== src/Restore.antt =====
-- Restoring from the server, and the resumption of an interrupted restore: src/Restore.cc.
pub mod Resume
pub mod ResumeFile
pub mod Dir
pub mod Paths
pub mod Truth
pub mod Ensures
pub mod Files
pub mod Subdirs
pub mod Sound
pub mod Driver
pub mod Outcome
pub mod Completes
pub mod Finishes
mod Tests
