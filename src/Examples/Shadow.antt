-- ===== src/Examples/Shadow.antt =====
-- The shadow pass over a bar on which the adaptive stop is reached.
use outbound_api.Prelude.{true}
use outbound_api.Prelude.Integers.{ℤ, pos}
use outbound_api.Decimal.Whole.{whole_decimal}
use outbound_api.Repository.Outcome.{Ends}
use outbound_api.Indicator.Regime.{RegimeCache}
use outbound_api.Strategy.AdaptiveExit.{AdaptiveExitParams}
use outbound_api.Strategy.Live.{BarEvent}
use outbound_api.Strategy.Trading.{shadow_evaluate_bar}
use outbound_api.Strategy.Trading.Calm.{Calm}
use outbound_api.Strategy.Trading.Pass.{shadow_evaluate_bar-Calm}
use outbound_api.Examples.Data.{quiet, good_news, recovering}
use outbound_api.Examples.Entries.{after_fill}

abbrev pub tiers : AdaptiveExitParams ℤ
tiers = record {
  break_even_atr_trigger = pos 1;
  trail_atr_trigger = pos 2;
  trail_atr_distance = pos 1;
}

abbrev pub risk_on : RegimeCache
risk_on = record { seeded = true; risk_on = true }

abbrev bar : BarEvent ℤ
bar = record { symbol = "AAPL"; price = pos 112; bar_time = 9 }

shadow_evaluate_bar-Calm_example :
    Ends
      (λ _. Calm after_fill)
      (Calm after_fill)
      (shadow_evaluate_bar quiet tiers risk_on good_news recovering bar after_fill)
shadow_evaluate_bar-Calm_example =
    shadow_evaluate_bar-Calm quiet tiers risk_on good_news recovering bar after_fill
