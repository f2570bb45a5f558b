-- ===== src/Alpaca.antt =====
-- internal/alpaca: the broker's events and the supervision of its streams.
pub mod Mapper
pub mod Retry
pub mod Supervisor
