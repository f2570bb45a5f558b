-- ===== src/Server/Seeding.antt =====
-- seedIndicators and seedRegime of cmd/server/main.go. `bars` is what GetBars answers for the daily
-- bars of the last 14 months, `none` for its error, in the numbers that decimal.NewFromFloat makes of
-- them. A panic of a calculation ends the program; here it leaves the cache.
use outbound_api.Prelude.{ℕ, Option, none, some, String, List, [], ◌∷◌}
use outbound_api.Decimal.{Decimal}
use outbound_api.Indicator.Calc.{Calc, value, failed, panics}
use outbound_api.Indicator.Atr.{Bar}
use outbound_api.Indicator.Cache.{IndicatorCache, seed}
use outbound_api.Indicator.Regime.{RegimeCache, seed_regime}

-- What GetBars answers for a symbol.
abbrev pub Bars : Type 0 → Type 0
Bars D = String → Option (List (Bar D))

-- `if err := cache.Seed(…); err != nil { …; return }`
abbrev pub seeded_or : {A : Type 0} → A → Calc A → A
seeded_or cache (value new) = new
seeded_or cache (failed e) = cache
seeded_or cache panics = cache

module _ {D : Type 0} ⦃dec : Decimal D⦄ where
  unfoldable pub seed_indicators :
      String → Option (List (Bar D)) → IndicatorCache D → IndicatorCache D
  seed_indicators symbol none cache = cache
  seed_indicators symbol (some bars) cache = seeded_or cache (seed symbol bars 200 14 14 cache)

  -- The loops over the symbols that are seeded.
  unfoldable pub seed_each : Bars D → List String → IndicatorCache D → IndicatorCache D
  seed_each bars [] cache = cache
  seed_each bars (s ∷ rest) cache = seed_each bars rest (seed_indicators s (bars s) cache)

  unfoldable pub seed_regime_of : Option (List (Bar D)) → ℕ → RegimeCache → RegimeCache
  seed_regime_of none ema_period cache = cache
  seed_regime_of (some bars) ema_period cache = seeded_or cache (seed_regime bars ema_period)
