-- ===== src/Rpc.antt =====
-- examples/rpc: the example of calls between servers, over messages on a stream.
pub mod Lock
pub mod Message
pub mod Wire
pub mod Session
pub mod Server
pub mod SyncWire
pub mod SyncSession
pub mod Worker
pub mod Managers
pub mod Practice
pub mod Runs
