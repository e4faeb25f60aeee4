-- ===== src/Conlock/Oneshot/Invariant.antt =====
-- What holds of a channel whatever its threads do, and in whatever order.
pub mod Defs
pub mod Exchange
pub mod Sender
pub mod Recv
pub mod Receiver
pub mod Threads
pub mod Moves
pub mod Calls
pub mod Steps
pub mod Start
