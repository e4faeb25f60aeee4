-- ===== src/Conlock/Oneshot/Alone.antt =====
-- Calls of conlock/src/oneshot.rs while no other thread moves.
pub mod Sends
pub mod Receives
pub mod Finish
pub mod Returns
