-- ===== src/Server.antt =====
-- The connection to the store server: include/ServerConnection.h and src/ServerConnection.cc.
pub mod Session
pub mod Connecting
pub mod Operations
pub mod Safe
pub mod Recovers
pub mod Leaks
pub mod Tests
