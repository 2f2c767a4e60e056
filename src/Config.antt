-- ===== src/Config.antt =====
-- The client's configuration: include/ClientConfig.h and src/ClientConfig.cc.
pub mod Locations
pub mod Listeners
pub mod Indexed
pub mod Table
mod Tests
pub mod Props
pub mod Checks
pub mod Certificates
pub mod Checking
pub mod Checked
pub mod Passes
mod CheckTests
pub mod Lifecycle
pub mod Client
pub mod Clean
mod CleanTests
