-- ===== src/Connection.antt =====
-- The connection to the backup client: include/ClientConnection.h and src/ClientConnection.cc.
pub mod State
pub mod Pid
pub mod Worker
pub mod Idle
pub mod Interleaving
pub mod Commands
pub mod Killing
pub mod Connecting
pub mod FirstConnect
pub mod Listening
pub mod Restart
mod Tests
