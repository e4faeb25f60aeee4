-- ===== src/ConstString.antt =====
-- const_string/src/lib.rs: strings of a fixed length, in the 16 bytes of the value itself if they
-- fit. The union is its bytes, on a little-endian machine with 64-bit words; a string is its UTF-8
-- bytes.
pub mod Heap
pub mod Layout
pub mod Impls
pub mod Tag
pub mod Contents
pub mod Lifetime
pub mod Writes
pub mod Order
mod Runs
