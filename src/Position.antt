-- ===== src/Position.antt =====
-- At most one open position of a symbol.
pub mod Rows
pub mod Tables
pub mod Writes
pub mod Buy
pub mod Collect
pub mod Exits
pub mod Bars
pub mod Session
