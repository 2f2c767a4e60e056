-- ===== src/Location.antt =====
-- Backup locations and their exclusion lists: include/Location.h and src/Location.cc.
pub mod Types
pub mod ExcludeList
pub mod Sameness
pub mod Excluded
pub mod Verdict
pub mod BoxList
pub mod Editing
pub mod Removing
pub mod Replacing
pub mod Names
pub mod Order
mod Tests
