-- ===== src/Strategy/Trading.antt =====
-- internal/strategy/trading_coordinator.go: the shadow pass over a bar, then the live one. The shadow
-- path's signal service has a provider of its own.
pub mod Calm
pub mod Pass
pub mod Writes
use outbound_api.Prelude.{
  ℕ, Bool, true, false, not, ◌&&◌, ◌||◌, Option, none, some, String, List, [], ◌∷◌, if◌then◌else◌,
}
use outbound_api.Decimal.{Decimal}
use outbound_api.Model.{Side, SignalMode, Trade, Signal, ShadowExitDecision}
use outbound_api.Repository.Store.{
  Env, M, ◌>>=◌, ◌>>◌, pure, best_effort, within_transaction, new_uuid, time_now,
}
use outbound_api.Repository.Trades.{update_trade, get_open_buy_trades_by_symbol}
use outbound_api.Repository.Shadow.{log_shadow_signal, log_shadow_exit_decision}
use outbound_api.Indicator.Cache.{IndicatorCache}
use outbound_api.Indicator.Regime.{RegimeCache, is_risk_on}
use outbound_api.Service.Signal.{Provider, preview_buy_signal}
use outbound_api.Service.Trade.Exits.{at_stop, at_target}
use outbound_api.Service.Trade.Sizing.{RiskParams}
use outbound_api.Strategy.AdaptiveExit.{AdaptiveExitParams, compute_adaptive_effective_stop}
use outbound_api.Strategy.Live.{BarEvent, live_evaluate_bar}

module _ {D : Type 0} ⦃dec : Decimal D⦄ where
  -- `tradeEntryPrice`
  unfoldable pub trade_entry_price : Trade D → Option D
  trade_entry_price t = elim t.avg_fill_price [ some price ↦ some price | none ↦ t.price_per_unit ]

  -- The peak before the bar, and with it.
  unfoldable pub old_peak : Trade D → D → D
  old_peak t entry = elim t.peak_price [ some peak ↦ peak | none ↦ entry ]

  unfoldable pub raised : D → D → D
  raised price peak = if dec.gt price peak then price else peak

module _ {D : Type 0} ⦃dec : Decimal D⦄ (env : Env D) where
  -- A decision row on a trade, with a new identifier and the time.
  unfoldable pub log_decision :
      Trade D → ℕ → D → D → Option D → String → Option String → M D (Unit {0})
  log_decision t bar_time price peak stop action reasoning = do
    now ← time_now env
    id ← new_uuid env
    log_shadow_exit_decision env (record {
      id = id;
      trade_id = t.id;
      bar_time = bar_time;
      current_price = price;
      peak_price = peak;
      current_stop = stop;
      action = action;
      reasoning = reasoning;
      created_at = now;
    })

  unfoldable pub store_peak : Trade D → D → D → M D (Unit {0})
  store_peak t old new =
      if not (dec.equal new old)
      then update_trade env (record t { peak_price = some new })
      else pure tt

  -- What is logged while the static levels hold.
  unfoldable pub log_adaptive : Trade D → ℕ → D → D → D → D → M D (Unit {0})
  log_adaptive t bar_time price peak old_stop new_stop =
      if dec.le price new_stop
      then log_decision t bar_time price peak (some new_stop) "exit_stop" (some "adaptive_exit")
      else if dec.gt new_stop old_stop
      then log_decision t bar_time price peak (some new_stop) "stop_moved"
          (some "adaptive_stop_moved")
      else pure tt

  unfoldable pub shadow_adaptive_exit :
      AdaptiveExitParams D → Trade D → ℕ → D → D → D → D → M D (Unit {0})
  shadow_adaptive_exit p t bar_time price entry atr stop =
      let old = old_peak t entry in
      let new = raised price old in
      let old_stop = compute_adaptive_effective_stop old entry atr stop p in
      let new_stop = compute_adaptive_effective_stop new entry atr stop p in
      let log = log_adaptive t bar_time price new old_stop new_stop in
      store_peak t old new
      >> (if at_stop price t.stop_loss || at_target price t.take_profit then pure tt else log)

  unfoldable pub shadow_legacy_exit : Trade D → ℕ → D → M D (Unit {0})
  shadow_legacy_exit t bar_time price =
      if at_stop price t.stop_loss
      then log_decision t bar_time price price t.stop_loss "exit_stop" none
      else if at_target price t.take_profit
      then log_decision t bar_time price price t.stop_loss "exit_take_profit" none
      else pure tt

  unfoldable pub with_atr :
      AdaptiveExitParams D → Trade D → ℕ → D → D → Option D → Option D → M D (Unit {0})
  with_atr p t bar_time price atr (some entry) (some stop) =
      shadow_adaptive_exit p t bar_time price entry atr stop
  with_atr p t bar_time price atr _ _ = pure tt

  -- The adaptive path at an ATR that is there and not 0, else the legacy one.
  unfoldable pub by_atr : AdaptiveExitParams D → Trade D → ℕ → D → Option D → M D (Unit {0})
  by_atr p t bar_time price none = shadow_legacy_exit t bar_time price
  by_atr p t bar_time price (some atr) =
      if dec.is_zero atr
      then shadow_legacy_exit t bar_time price
      else with_atr p t bar_time price atr (trade_entry_price t) t.stop_loss

  unfoldable pub shadow_evaluate_one_trade : AdaptiveExitParams D → Trade D → ℕ → D → M D (Unit {0})
  shadow_evaluate_one_trade p t bar_time price = by_atr p t bar_time price t.entry_atr

  -- The loop over the open trades.
  unfoldable pub shadow_evaluate_trades :
      AdaptiveExitParams D → ℕ → D → List (Trade D) → M D (Unit {0})
  shadow_evaluate_trades p bar_time price [] = pure tt
  shadow_evaluate_trades p bar_time price (t ∷ trades) =
      shadow_evaluate_one_trade p t bar_time price >> shadow_evaluate_trades p bar_time price trades

  unfoldable pub shadow_evaluate_exits : AdaptiveExitParams D → String → ℕ → D → M D (Unit {0})
  shadow_evaluate_exits p symbol bar_time price = best_effort (
      within_transaction env
        (get_open_buy_trades_by_symbol env symbol >>= shadow_evaluate_trades p bar_time price))

  unfoldable pub log_preview : Option (Signal D) → M D (Unit {0})
  log_preview none = pure tt
  log_preview (some signal) = log_shadow_signal env signal

  unfoldable pub log_regime_off : String → ℕ → D → M D (Unit {0})
  log_regime_off symbol bar_time price = do
    id ← new_uuid env
    log_shadow_signal env (record {
      id = id;
      symbol = symbol;
      side = Side.buy;
      price_at_signal = price;
      indicators = record { ema = dec.naught; rsi = dec.naught; atr = dec.naught };
      is_executed = false;
      mode = SignalMode.shadow;
      reasoning = some "regime_off";
      created_at = bar_time;
    })

  -- Failures of the preview and of the log are logged and dropped.
  unfoldable pub shadow_evaluate_buy_signal :
      RegimeCache → Provider → IndicatorCache D → String → ℕ → D → M D (Unit {0})
  shadow_evaluate_buy_signal regime provider cache symbol bar_time price = best_effort (
      if not (is_risk_on regime)
      then log_regime_off symbol bar_time price
      else preview_buy_signal env provider cache symbol price >>= log_preview)

module _ {D : Type 0} ⦃dec : Decimal D⦄ (env : Env D) where
  -- The shadow pass of `EvaluateBar`.
  unfoldable pub shadow_evaluate_bar :
      AdaptiveExitParams D → RegimeCache → Provider → IndicatorCache D → BarEvent D → M D (Unit {0})
  shadow_evaluate_bar p regime provider cache event =
      shadow_evaluate_exits env p event.symbol event.bar_time event.price
      >> shadow_evaluate_buy_signal env regime provider cache event.symbol event.bar_time
          event.price

module _ {D : Type 0} ⦃dec : Decimal D⦄ (env : Env D) (cfg : RiskParams D) where
  -- `EvaluateBar`, with the shadow provider first.
  unfoldable pub evaluate_bar :
      AdaptiveExitParams D
      → RegimeCache
      → Provider
      → Provider
      → IndicatorCache D
      → BarEvent D
      → M D (Unit {0})
  evaluate_bar p regime shadow_provider provider cache event =
      shadow_evaluate_bar env p regime shadow_provider cache event
      >> live_evaluate_bar env cfg provider cache event
