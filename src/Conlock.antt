-- ===== src/Conlock.antt =====
-- The crate `conlock`: a channel for one message.
pub mod Bit
pub mod Status
pub mod Oneshot
