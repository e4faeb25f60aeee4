-- ===== src/Conlock/Oneshot/Wakeup.antt =====
-- Wakers that a poll leaves in the channel, and those that the sender wakes.
pub mod Stored
pub mod Pending
