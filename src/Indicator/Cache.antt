-- ===== src/Indicator/Cache.antt =====
-- internal/indicator/cache.go: the indicators of each symbol.
pub mod Seed
use outbound_api.Prelude.{
  String, str_eq, ℕ, ◌+◌, ◌-◌, Option, none, some, List, [], ◌∷◌, map, ◌==◌, ltb, length, take,
  if◌then◌else◌,
}
use outbound_api.Decimal.{Decimal}
use outbound_api.Indicator.Calc.{
  Calc, CalcError, value, failed, panics, no_bars, too_few_bars, ◌>>=◌,
}
use outbound_api.Indicator.Ema.{calculate_ema}
use outbound_api.Indicator.Rsi.{calculate_rsi}
use outbound_api.Indicator.Atr.{Bar, calculate_atr}

pub record IndicatorState (D : Type 0) : Type 0 where
  pub ema : D
  pub rsi : D
  pub rsi_prev : D
  pub atr : D

-- `map[string]IndicatorState`
abbrev pub IndicatorCache : Type 0 → Type 0
IndicatorCache D = String → Option (IndicatorState D)

abbrev pub new_indicator_cache : {D : Type 0} → IndicatorCache D
new_indicator_cache symbol = none

-- `c.state[symbol] = state`
unfoldable pub store :
    {D : Type 0} → String → IndicatorState D → IndicatorCache D → IndicatorCache D
store symbol state cache = λ other. if str_eq other symbol then some state else cache other

unfoldable pub get : {D : Type 0} → IndicatorCache D → String → Option (IndicatorState D)
get cache symbol = cache symbol

module _ {D : Type 0} ⦃dec : Decimal D⦄ where
  -- The computation of `Seed`, before the lock is taken.
  unfoldable pub indicators_of : List (Bar D) → ℕ → ℕ → ℕ → Calc (IndicatorState D)
  indicators_of bars ema_period rsi_period atr_period =
      if length bars == 0
      then failed no_bars
      else calculate_ema (map (λ bar. bar.close) bars) ema_period >>= λ ema.
          if ltb (length (map (λ bar. bar.close) bars)) (rsi_period + 2)
          then failed too_few_bars
          else calculate_rsi
              (take (length (map (λ bar. bar.close) bars) - 1) (map (λ bar. bar.close) bars))
              rsi_period
            >>= λ rsi_prev. calculate_rsi (map (λ bar. bar.close) bars) rsi_period >>= λ rsi.
                calculate_atr bars atr_period >>= λ atr.
                value (record { ema = ema; rsi = rsi; rsi_prev = rsi_prev; atr = atr })

  -- `Seed` gives the cache that it leaves; on a failure the cache stays as it is.
  unfoldable pub seed :
      String → List (Bar D) → ℕ → ℕ → ℕ → IndicatorCache D → Calc (IndicatorCache D)
  seed symbol bars ema_period rsi_period atr_period cache =
      indicators_of bars ema_period rsi_period atr_period >>= λ state.
      value (store symbol state cache)
