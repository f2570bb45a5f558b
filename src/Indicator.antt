-- ===== src/Indicator.antt =====
-- internal/indicator: EMA, RSI and ATR over bars, and the caches of their results.
pub mod Calc
pub mod Ema
pub mod Rsi
pub mod Atr
pub mod Cache
pub mod Regime
pub mod Whole
