-- ===== src/Rpc/Practice.antt =====
-- examples/rpc/practice.rs: a runtime that takes a call along a plan of servers and threads, and the
-- service on players that it carries.
pub mod Executor
pub mod Runtime
pub mod Players
pub mod Cursor
pub mod Delivery
pub mod Failure
pub mod Proxy
pub mod Scores
pub mod Service
pub mod Runs
