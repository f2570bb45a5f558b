-- ===== src/Budget.antt =====
-- The budget of a funding transfer: the trade slots that are left on it, and the buys that hold one.
-- `Tables` has the changes of the rows, `Queries` those of the repository's calls, `Buy`, `Sell`,
-- `Exits` and `Updates` those of the service's methods, `Bars` those of a bar, and `Session` their
-- sequences; `Sells` has the changes of rows that are sells.
pub mod Tables
pub mod Queries
pub mod Buy
pub mod Sells
pub mod Exits
pub mod Sell
pub mod Updates
mod Shadow
pub mod Bars
pub mod Session
