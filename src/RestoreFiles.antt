-- ===== src/RestoreFiles.antt =====
-- Restoring selected files: include/RestoreFilesPanel.h, src/RestoreFilesPanel.cc and
-- src/RestoreProgressPanel.cc.
pub mod Cache
pub mod Spec
pub mod Count
pub mod Fetch
pub mod Selected
pub mod Counted
pub mod Fetched
pub mod FetchedAs
pub mod LocalPath
pub mod Panel
pub mod LocalName
pub mod Whole
pub mod Kept
pub mod CountedAll
pub mod Finished
pub mod Undisturbed
pub mod Choice
pub mod Entries
pub mod Tree
pub mod TreeStates
pub mod Toggled
pub mod TreeTests
pub mod Tests
