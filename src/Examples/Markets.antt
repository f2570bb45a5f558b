-- ===== src/Examples/Markets.antt =====
-- The adaptive stop and the indicators, over whole numbers.
use outbound_api.Prelude.{ℕ, suc, ◌+◌, ◌≡◌, refl, true, List, [], ◌∷◌, arith}
use outbound_api.Prelude.Integers.{ℤ, pos, ◌/ℤ◌, ◌-ℤ◌, ◌*ℤ◌}
use outbound_api.Decimal.{◌≼◌}
use outbound_api.Decimal.Whole.{whole_decimal, whole-IsOrdered, whole-IsArithmetic}
use outbound_api.Strategy.AdaptiveExit.{AdaptiveExitParams, compute_adaptive_effective_stop}
use outbound_api.Strategy.AdaptiveExit.Tiers.{effective_stop_mono, effective_stop_drops}
use outbound_api.Indicator.Calc.{Gives}
use outbound_api.Indicator.Rsi.{calculate_rsi}
use outbound_api.Indicator.Rsi.Bounds.{IsPercentage, calculate_rsi-bounds}
use outbound_api.Indicator.Atr.{Bar}
use outbound_api.Indicator.Cache.{new_indicator_cache, seed}
use outbound_api.Indicator.Cache.Seed.{Stored, seed-get}
use outbound_api.Indicator.Whole.{whole-IsSigned}

-- The trailing stop lies nearer than its trigger.
abbrev near : AdaptiveExitParams ℤ
near = record {
  break_even_atr_trigger = pos 1;
  trail_atr_trigger = pos 3;
  trail_atr_distance = pos 2;
}

-- The trailing stop lies farther than its trigger, as in the default configuration.
abbrev far : AdaptiveExitParams ℤ
far = record near { trail_atr_trigger = pos 2; trail_atr_distance = pos 3 }

effective_stop_mono_example :
    compute_adaptive_effective_stop (pos 115) (pos 100) (pos 10) (pos 90) near
    ≼ compute_adaptive_effective_stop (pos 140) (pos 100) (pos 10) (pos 90) near
unfolding ◌/ℤ◌ ◌*ℤ◌
effective_stop_mono_example =
    effective_stop_mono whole-IsOrdered whole-IsArithmetic (pos 100) (pos 10) (pos 90) near refl
      (pos 115) (pos 140) refl refl refl

effective_stop_drops_example :
    whole_decimal.lt
      (compute_adaptive_effective_stop (pos 120) (pos 100) (pos 10) (pos 80) far)
      (compute_adaptive_effective_stop (pos 115) (pos 100) (pos 10) (pos 80) far)
    ≡ true
unfolding ◌/ℤ◌ ◌-ℤ◌ ◌*ℤ◌
effective_stop_drops_example =
    effective_stop_drops whole-IsOrdered whole-IsArithmetic (pos 100) (pos 10) (pos 80) far refl
      (pos 115) (pos 120) refl refl refl refl refl

abbrev prices : List ℤ
prices = pos 100 ∷ pos 104 ∷ pos 102 ∷ pos 108 ∷ []

calculate_rsi-bounds_example : Gives IsPercentage (calculate_rsi prices (suc 1))
calculate_rsi-bounds_example =
    calculate_rsi-bounds whole-IsOrdered whole-IsSigned prices 1 (omega arith)

abbrev bar_at : ℕ → Bar ℤ
bar_at price = record { high = pos (price + 2); low = pos price; close = pos (price + 1) }

abbrev later_bars : List (Bar ℤ)
later_bars = bar_at 104 ∷ bar_at 102 ∷ bar_at 108 ∷ []

seed-get_example :
    Gives
      (Stored "AAPL" new_indicator_cache)
      (seed "AAPL" (bar_at 100 ∷ later_bars) (suc 1) (suc 1) (suc 1) new_indicator_cache)
seed-get_example =
    seed-get whole-IsOrdered whole-IsSigned "AAPL" (bar_at 100) later_bars 1 1 1 new_indicator_cache
      (omega arith) (omega arith) (omega arith)
