-- ===== src/Tracking.antt =====
-- The orders that the broker has accepted and the rows of `trades`: `Rows` has the changes of the
-- rows, and the others the methods of the service, a bar, and everything that the server does.
pub mod Rows
pub mod Placing
pub mod Reserve
pub mod Buy
pub mod Collect
pub mod Exits
pub mod Sell
pub mod Updates
pub mod Bars
pub mod Session
