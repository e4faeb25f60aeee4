-- ===== src/Macro.antt =====
-- forward_macro/src: the attribute macro that makes a forwarding proxy of an `impl` block.
pub mod Syntax
pub mod Config
pub mod Leftover
pub mod Total
pub mod Named
pub mod Attrs
pub mod Proxy
pub mod Shape
pub mod Expansion
pub mod Example
pub mod Export
pub mod Runs
