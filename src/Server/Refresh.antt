-- ===== src/Server/Refresh.antt =====
-- The two tickers of cmd/server/main.go: the refresh of the watchlist every 30 seconds and the daily
-- seeding. `listed` is the supervisor's answer to `Symbols`. The loops over the two maps run in some
-- order; here it is that of `fetched` and of `listed`.
pub mod Follows
use outbound_api.Prelude.{
  ℕ, Bool, true, false, not, Option, none, some, String, str_eq, List, [], ◌∷◌, filter, any,
}
use outbound_api.Decimal.{Decimal}
use outbound_api.Indicator.Cache.{IndicatorCache, new_indicator_cache}
use outbound_api.Indicator.Regime.{RegimeCache, new_regime_cache}
use outbound_api.Alpaca.Supervisor.{StreamSupervisor, new_stream_supervisor, subscribe, unsubscribe}
use outbound_api.Watchlist.Refine.{is_in}
use outbound_api.Server.Seeding.{Bars, seed_each, seed_regime_of}

-- What the tickers share.
pub record Feed (D : Type 0) : Type 0 where
  pub supervisor : StreamSupervisor
  pub indicators : IndicatorCache D
  pub regime : RegimeCache

-- What the calls of one refresh meet: whether the SDK refuses to subscribe and to unsubscribe.
pub record Refusals : Type 0 where
  pub at_subscribe : Bool
  pub at_unsubscribe : Bool

-- The symbols of the first list that are not in the second one.
unfoldable pub difference : List String → List String → List String
difference xs ys = filter (λ s. not (is_in s ys)) xs

module _ {D : Type 0} ⦃dec : Decimal D⦄ (bars : Bars D) where
  -- What `main` starts with: each symbol is seeded once, then the regime.
  unfoldable pub new_feed : String → ℕ → List String → Feed D
  new_feed regime_symbol ema_period watchlists = record {
    supervisor = new_stream_supervisor watchlists;
    indicators = seed_each bars watchlists new_indicator_cache;
    regime = seed_regime_of (bars regime_symbol) ema_period new_regime_cache;
  }

  abbrev pub seed_if : Bool → List String → Feed D → Feed D
  seed_if false symbols f = f
  seed_if true symbols f = record f { indicators = seed_each bars symbols f.indicators }

  -- `if len(newSymbols) > 0`
  unfoldable pub add_symbols : Bool → List String → Feed D → Feed D
  add_symbols refused [] f = f
  add_symbols refused (s ∷ rest) f =
      let (subscribed, supervisor) = subscribe refused (s ∷ rest) f.supervisor in
      seed_if subscribed (s ∷ rest) (record f { supervisor = supervisor })

  -- `if len(removedSymbols) > 0`
  unfoldable pub remove_symbols : Bool → List String → Feed D → Feed D
  remove_symbols refused [] f = f
  remove_symbols refused (s ∷ rest) f = record f {
    supervisor = (unsubscribe refused (s ∷ rest) f.supervisor).1;
  }

  -- The refresh, after `GetAllActive` answered.
  unfoldable pub refresh : Refusals → List String → Option (List String) → Feed D → Feed D
  unfolding difference add_symbols remove_symbols
  refresh refusals listed none f = f
  refresh refusals listed (some fetched) f =
      remove_symbols refusals.at_unsubscribe (difference listed fetched)
        (add_symbols refusals.at_subscribe (difference fetched listed) f)

  -- The daily seeding, after `GetAllActive` answered.
  unfoldable pub reseed : String → ℕ → Option (List String) → Feed D → Feed D
  reseed regime_symbol ema_period none f = f
  reseed regime_symbol ema_period (some watchlists) f = record f {
    indicators = seed_each bars watchlists f.indicators;
    regime = seed_regime_of (bars regime_symbol) ema_period f.regime;
  }
