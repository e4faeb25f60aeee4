-- ===== src/Conlock/Oneshot.antt =====
-- conlock/src/oneshot.rs, apart from the status word: the shared record and the two endpoints.
pub mod Inner
pub mod Sender
pub mod Recv
pub mod Receiver
pub mod System
pub mod Invariant
pub mod Safety
pub mod Ledger
pub mod Trace
pub mod Along
pub mod Atomic
pub mod Table
pub mod Refinement
pub mod Alone
pub mod Handover
pub mod Wakeup
pub mod Orderings
mod Runs
