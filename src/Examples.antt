-- ===== src/Examples.antt =====
-- Concrete runs: whole-number decimals, an environment and a funded account.
mod Data
mod Trading
mod Control
mod Markets
mod Entries
mod Shadow
mod Settings
mod Headlines
mod Wired
mod Queues
mod Started
