-- ===== src/Strategy.antt =====
-- internal/strategy: the evaluation of a bar on the shadow path and on the live path.
pub mod AdaptiveExit
pub mod Live
pub mod Trading
