-- ===== src/Indicator/Regime.antt =====
-- internal/indicator/regime.go: whether the market is in a risk-on regime.
use outbound_api.Prelude.{
  ℕ, Bool, true, false, ◌&&◌, List, [], ◌∷◌, map, ◌==◌, length, if◌then◌else◌,
}
use outbound_api.Decimal.{Decimal}
use outbound_api.Indicator.Calc.{Calc, value, failed, no_bars, ◌>>=◌}
use outbound_api.Indicator.Ema.{calculate_ema}
use outbound_api.Indicator.Atr.{Bar}

pub record RegimeCache : Type 0 where
  pub seeded : Bool
  pub risk_on : Bool

abbrev pub new_regime_cache : RegimeCache
new_regime_cache = record { seeded = false; risk_on = false }

unfoldable pub is_risk_on : RegimeCache → Bool
is_risk_on cache = cache.seeded && cache.risk_on

module _ {D : Type 0} ⦃dec : Decimal D⦄ where
  -- `bars[len(bars)-1].Close`, the first argument for no bars.
  abbrev pub last_close : D → List (Bar D) → D
  last_close close [] = close
  last_close close (bar ∷ bars) = last_close bar.close bars

  -- The cache that `Seed` leaves when it succeeds; otherwise the cache stays as it is.
  unfoldable pub seed_regime : List (Bar D) → ℕ → Calc RegimeCache
  seed_regime bars ema_period =
      if length bars == 0
      then failed no_bars
      else calculate_ema (map (λ bar. bar.close) bars) ema_period >>= λ ema.
          value (record { seeded = true; risk_on = dec.gt (last_close dec.naught bars) ema })
