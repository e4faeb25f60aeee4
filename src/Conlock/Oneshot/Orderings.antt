-- ===== src/Conlock/Oneshot/Orderings.antt =====
-- The orderings that the channel's atomic accesses declare, and what they put in order.
pub mod Access
pub mod Clock
pub mod Sync
pub mod Perform
pub mod Shared
pub mod Flags
pub mod Cases
pub mod Sender
pub mod Receiver
pub mod Recv
pub mod Threads
pub mod Facts
pub mod Ordered
pub mod SenderMoves
pub mod ReceiverMoves
pub mod RecvFacts
pub mod RecvMoves
pub mod Calls
pub mod Races
pub mod Needed
