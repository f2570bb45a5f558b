-- ===== src/Repository.antt =====
-- internal/repository and internal/database/transactor.go: the tables, the transactions and one
-- function for each query.
pub mod Store
pub mod Outcome
pub mod Effects
pub mod Reads
pub mod Orders
pub mod Keeps
pub mod Known
pub mod Alike
pub mod Trades
pub mod Transfers
pub mod Signals
pub mod Shadow
