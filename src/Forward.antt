-- ===== src/Forward.antt =====
-- forward/src/lib.rs: a call that may run where it is made, on another thread, or on another server.
pub mod Calls
pub mod Hops
pub mod Transparency
pub mod Async
pub mod Polls
pub mod Proxy
mod Runs
