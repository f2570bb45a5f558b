-- ===== src/Service.antt =====
-- internal/service: trades, signals, transfers and the watchlist.
pub mod Account
pub mod Trade
pub mod Signal
