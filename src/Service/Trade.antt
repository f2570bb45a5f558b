-- ===== src/Service/Trade.antt =====
-- internal/service/trade_service.go: the sizing of a position, the buy, the manual sell, the exits
-- and the reconciliation of broker events.
pub mod Sizing
pub mod Buy
pub mod Sell
pub mod Exits
pub mod Updates
pub mod Concurrent
