-- ===== src/Strategy/Trading/Pass.antt =====
-- The shadow pass places no order and leaves the funding transfers alone.
use outbound_api.Prelude.{ℕ, not, ◌||◌, Option, none, some, String, List, [], ◌∷◌}
use outbound_api.Decimal.{Decimal}
use outbound_api.Model.{Trade, Signal}
use outbound_api.Repository.Store.{Env, World, new_uuid, time_now}
use outbound_api.Repository.Outcome.{Ends, Ends-weaken}
use outbound_api.Repository.Trades.{get_open_buy_trades_by_symbol}
use outbound_api.Indicator.Cache.{IndicatorCache}
use outbound_api.Indicator.Regime.{RegimeCache, is_risk_on}
use outbound_api.Service.Signal.{Provider, preview_buy_signal}
use outbound_api.Service.Signal.Gates.{preview_buy_signal-shadow_gates}
use outbound_api.Service.Trade.Exits.{at_stop, at_target}
use outbound_api.Strategy.AdaptiveExit.{AdaptiveExitParams}
use outbound_api.Strategy.Live.{BarEvent}
use outbound_api.Strategy.Trading.{
  trade_entry_price, log_decision, store_peak, log_adaptive, shadow_adaptive_exit,
  shadow_legacy_exit, with_atr, by_atr, shadow_evaluate_one_trade, shadow_evaluate_trades,
  shadow_evaluate_exits, log_preview, log_regime_off, shadow_evaluate_buy_signal,
  shadow_evaluate_bar,
}
use outbound_api.Strategy.Trading.Calm.{
  Calm, IsCalm, bind-IsCalm, pure-IsCalm, best_effort-IsCalm, if-IsCalm, within_transaction-IsCalm,
  update_trade-IsCalm, log_shadow_signal-IsCalm, log_shadow_exit_decision-IsCalm, open_buys-IsCalm,
  new_uuid-IsCalm, time_now-IsCalm,
}

module _ {D : Type 0} ⦃dec : Decimal D⦄ (env : Env D) where
  log_decision-IsCalm :
      (t : Trade D) (at : ℕ) (price peak : D) (stop : Option D) (action : String)
      (reasoning : Option String)
      → IsCalm (log_decision env t at price peak stop action reasoning)
  unfolding log_decision
  log_decision-IsCalm t at price peak stop action reasoning =
      bind-IsCalm (time_now env) _ (time_now-IsCalm env) λ now.
        bind-IsCalm (new_uuid env) _ (new_uuid-IsCalm env)
          λ id. log_shadow_exit_decision-IsCalm env _

  store_peak-IsCalm : (t : Trade D) (old new : D) → IsCalm (store_peak env t old new)
  unfolding store_peak
  store_peak-IsCalm t old new =
      if-IsCalm (not (dec.equal new old)) _ _ (update_trade-IsCalm env _) (pure-IsCalm tt)

  log_adaptive-IsCalm :
      (t : Trade D) (at : ℕ) (price peak old_stop new_stop : D)
      → IsCalm (log_adaptive env t at price peak old_stop new_stop)
  unfolding log_adaptive
  log_adaptive-IsCalm t at price peak old_stop new_stop =
      if-IsCalm (dec.le price new_stop) _ _ (log_decision-IsCalm t at price peak _ _ _) (
        if-IsCalm (dec.gt new_stop old_stop) _ _ (log_decision-IsCalm t at price peak _ _ _)
          (pure-IsCalm tt))

  shadow_adaptive_exit-IsCalm :
      (p : AdaptiveExitParams D) (t : Trade D) (at : ℕ) (price entry atr stop : D)
      → IsCalm (shadow_adaptive_exit env p t at price entry atr stop)
  unfolding shadow_adaptive_exit
  shadow_adaptive_exit-IsCalm p t at price entry atr stop =
      bind-IsCalm (store_peak env t _ _) _ (store_peak-IsCalm t _ _) λ _.
        if-IsCalm (at_stop price t.stop_loss || at_target price t.take_profit) _ _ (pure-IsCalm tt)
          (log_adaptive-IsCalm t at price _ _ _)

  shadow_legacy_exit-IsCalm :
      (t : Trade D) (at : ℕ) (price : D) → IsCalm (shadow_legacy_exit env t at price)
  unfolding shadow_legacy_exit
  shadow_legacy_exit-IsCalm t at price =
      if-IsCalm (at_stop price t.stop_loss) _ _ (log_decision-IsCalm t at price price _ _ _) (
        if-IsCalm (at_target price t.take_profit) _ _ (log_decision-IsCalm t at price price _ _ _)
          (pure-IsCalm tt))

  with_atr-IsCalm :
      (p : AdaptiveExitParams D) (t : Trade D) (at : ℕ) (price atr : D) (entry stop : Option D)
      → IsCalm (with_atr env p t at price atr entry stop)
  unfolding with_atr
  with_atr-IsCalm p t at price atr (some entry) (some stop) =
      shadow_adaptive_exit-IsCalm p t at price entry atr stop
  with_atr-IsCalm p t at price atr (some entry) none = pure-IsCalm tt
  with_atr-IsCalm p t at price atr none stop = pure-IsCalm tt

  by_atr-IsCalm :
      (p : AdaptiveExitParams D) (t : Trade D) (at : ℕ) (price : D) (o : Option D)
      → IsCalm (by_atr env p t at price o)
  unfolding by_atr
  by_atr-IsCalm p t at price none = shadow_legacy_exit-IsCalm t at price
  by_atr-IsCalm p t at price (some atr) =
      if-IsCalm (dec.is_zero atr) _ _ (shadow_legacy_exit-IsCalm t at price)
        (with_atr-IsCalm p t at price atr (trade_entry_price t) t.stop_loss)

  trades-IsCalm :
      (p : AdaptiveExitParams D) (at : ℕ) (price : D) (trades : List (Trade D))
      → IsCalm (shadow_evaluate_trades env p at price trades)
  unfolding shadow_evaluate_trades shadow_evaluate_one_trade
  trades-IsCalm p at price [] = pure-IsCalm tt
  trades-IsCalm p at price (t ∷ trades) =
      bind-IsCalm (shadow_evaluate_one_trade env p t at price) _
        (by_atr-IsCalm p t at price t.entry_atr) λ _. trades-IsCalm p at price trades

  exits-IsCalm :
      (p : AdaptiveExitParams D) (symbol : String) (at : ℕ) (price : D)
      → IsCalm (shadow_evaluate_exits env p symbol at price)
  unfolding shadow_evaluate_exits
  exits-IsCalm p symbol at price = best_effort-IsCalm _ (
      within_transaction-IsCalm env _ (
        bind-IsCalm (get_open_buy_trades_by_symbol env symbol)
          (shadow_evaluate_trades env p at price) (open_buys-IsCalm env symbol)
          (trades-IsCalm p at price)))

  log_preview-IsCalm : (o : Option (Signal D)) → IsCalm (log_preview env o)
  unfolding log_preview
  log_preview-IsCalm none = pure-IsCalm tt
  log_preview-IsCalm (some signal) = log_shadow_signal-IsCalm env signal

  regime_off-IsCalm :
      (symbol : String) (at : ℕ) (price : D) → IsCalm (log_regime_off env symbol at price)
  unfolding log_regime_off
  regime_off-IsCalm symbol at price =
      bind-IsCalm (new_uuid env) _ (new_uuid-IsCalm env) λ id. log_shadow_signal-IsCalm env _

  preview-IsCalm :
      (provider : Provider) (cache : IndicatorCache D) (symbol : String) (price : D)
      → IsCalm (preview_buy_signal env provider cache symbol price)
  preview-IsCalm provider cache symbol price w =
      Ends-weaken (preview_buy_signal env provider cache symbol price w)
        (preview_buy_signal-shadow_gates env provider cache symbol price w)
        (λ _ v (told, (same, signals, decisions, orders)). (orders, same.1))
        (λ v (same, signals, decisions, orders). (orders, same.1))

  buy_signal-IsCalm :
      (regime : RegimeCache) (provider : Provider) (cache : IndicatorCache D) (symbol : String)
      (at : ℕ) (price : D)
      → IsCalm (shadow_evaluate_buy_signal env regime provider cache symbol at price)
  unfolding shadow_evaluate_buy_signal
  buy_signal-IsCalm regime provider cache symbol at price = best_effort-IsCalm _ (
      if-IsCalm (not (is_risk_on regime)) _ _ (regime_off-IsCalm symbol at price) (
        bind-IsCalm (preview_buy_signal env provider cache symbol price) (log_preview env)
          (preview-IsCalm provider cache symbol price) log_preview-IsCalm))

  -- The shadow pass over a bar places no order and changes no funding transfer, whatever the
  -- parameters, the regime, the news and the open trades are, and however its calls fail.
  pub shadow_evaluate_bar-Calm :
      (p : AdaptiveExitParams D) (regime : RegimeCache) (provider : Provider)
      (cache : IndicatorCache D) (event : BarEvent D) (w : World D)
      → Ends (λ _. Calm w) (Calm w) (shadow_evaluate_bar env p regime provider cache event w)
  unfolding shadow_evaluate_bar
  shadow_evaluate_bar-Calm p regime provider cache event =
      bind-IsCalm (shadow_evaluate_exits env p event.symbol event.bar_time event.price) _
        (exits-IsCalm p event.symbol event.bar_time event.price)
        λ _. buy_signal-IsCalm regime provider cache event.symbol event.bar_time event.price
