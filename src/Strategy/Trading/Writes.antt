-- ===== src/Strategy/Trading/Writes.antt =====
-- The shadow pass over a bar changes of the trades that it has read only the peak: it keeps `T`, if
-- `Read l` is `T` while the trades `l`, which a SELECT has found, are still to be handled, and writing
-- the peak of the next one keeps `Read`.
use outbound_api.Prelude.{
  ℕ, Bool, not, ◌||◌, Option, none, some, String, List, [], ◌∷◌, Bool-cases, inl, inr, filter,
}
use outbound_api.Decimal.{Decimal}
use outbound_api.Model.{Trade, Signal, AccountTransfer}
use outbound_api.Repository.Store.{Env, World, next_tick, new_uuid, time_now, ◌>>=◌}
use outbound_api.Repository.Outcome.{
  Ends, Ends-weaken, Ends-bind, Ends-within_transaction, Tables, Holds,
}
use outbound_api.Repository.Trades.{update_trade, get_open_buy_trades_by_symbol}
use outbound_api.Repository.Reads.{
  time_now-Reads, new_uuid-Reads, log_shadow_signal-Reads, log_shadow_exit_decision-Reads,
}
use outbound_api.Indicator.Cache.{IndicatorCache}
use outbound_api.Indicator.Regime.{RegimeCache, is_risk_on}
use outbound_api.Service.Signal.{Provider, preview_buy_signal}
use outbound_api.Service.Signal.Gates.{preview_buy_signal-shadow_gates}
use outbound_api.Service.Trade.Exits.{at_stop, at_target}
use outbound_api.Strategy.AdaptiveExit.{AdaptiveExitParams}
use outbound_api.Strategy.Live.{BarEvent}
use outbound_api.Strategy.Trading.{
  trade_entry_price, store_peak, log_decision, log_adaptive, shadow_adaptive_exit,
  shadow_legacy_exit, with_atr, by_atr, shadow_evaluate_one_trade, shadow_evaluate_trades,
  shadow_evaluate_exits, log_preview, log_regime_off, shadow_evaluate_buy_signal,
  shadow_evaluate_bar,
}
use outbound_api.Repository.Effects.{SameTables-Holds}
use outbound_api.Repository.Keeps.{
  Keeps, pure-Keeps, bind-Keeps, if-Keeps, best_effort-Keeps, Reads-Keeps,
}

module _ {D : Type 0} ⦃dec : Decimal D⦄ (env : Env D) where
  -- A decision, which is no row of these tables.
  log_decision-Keeps :
      (T : Tables D) (t : Trade D) (at : ℕ) (price peak : D) (stop : Option D) (action : String)
      (why : Option String)
      → Keeps T (log_decision env t at price peak stop action why)
  unfolding log_decision
  log_decision-Keeps T t at price peak stop action why =
      bind-Keeps T (time_now env) _ (Reads-Keeps T env (time_now env) (time_now-Reads env)) λ now.
        bind-Keeps T (new_uuid env) _ (Reads-Keeps T env (new_uuid env) (new_uuid-Reads env))
          λ id. Reads-Keeps T env _ (log_shadow_exit_decision-Reads env _)

  log_adaptive-Keeps :
      (T : Tables D) (t : Trade D) (at : ℕ) (price peak old new : D)
      → Keeps T (log_adaptive env t at price peak old new)
  unfolding log_adaptive
  log_adaptive-Keeps T t at price peak old new =
      if-Keeps T (dec.le price new) _ _ (log_decision-Keeps T t at price peak (some new) _ _) (
        if-Keeps T (dec.gt new old) _ _ (log_decision-Keeps T t at price peak (some new) _ _)
          (pure-Keeps T tt))

  legacy-Keeps :
      (T : Tables D) (t : Trade D) (at : ℕ) (price : D)
      → Keeps T (shadow_legacy_exit env t at price)
  unfolding shadow_legacy_exit
  legacy-Keeps T t at price =
      if-Keeps T (at_stop price t.stop_loss) _ _
        (log_decision-Keeps T t at price price t.stop_loss _ _)
        (if-Keeps T (at_target price t.take_profit) _ _
          (log_decision-Keeps T t at price price t.stop_loss _ _) (pure-Keeps T tt))

module _ {D : Type 0} ⦃dec : Decimal D⦄ (env : Env D) (T : Tables D)
    (Read : List (Trade D) → Tables D)
    (reads : (p : Trade D → Bool) (ts : List (Trade D)) (fs : List (AccountTransfer D))
      → T ts fs
      → Read (filter p ts) ts fs)
    (peak : (t : Trade D) (l : List (Trade D)) (x : D)
      → Keeps (Read (t ∷ l)) (update_trade env (record t { peak_price = some x })))
    (handled : (t : Trade D) (l : List (Trade D)) (ts : List (Trade D))
        (fs : List (AccountTransfer D))
      → Read (t ∷ l) ts fs
      → Read l ts fs)
    (over : (ts : List (Trade D)) (fs : List (AccountTransfer D)) → Read [] ts fs → T ts fs) where
  module _ (p : AdaptiveExitParams D) (at : ℕ) (price : D) (t : Trade D) (l : List (Trade D)) where
    -- The tables while `t` and then `l` are to be handled.
    abbrev Now : Tables D
    Now = Read (t ∷ l)

    store_peak-Keeps : (old new : D) → Keeps Now (store_peak env t old new)
    unfolding store_peak
    store_peak-Keeps old new =
        if-Keeps Now (not (dec.equal new old)) _ _ (peak t l new) (pure-Keeps Now tt)

    adaptive-Keeps :
        (entry atr stop : D) → Keeps Now (shadow_adaptive_exit env p t at price entry atr stop)
    unfolding shadow_adaptive_exit
    adaptive-Keeps entry atr stop =
        bind-Keeps Now (store_peak env t _ _) _ (store_peak-Keeps _ _) λ _.
          if-Keeps Now (at_stop price t.stop_loss || at_target price t.take_profit) _ _
            (pure-Keeps Now tt) (log_adaptive-Keeps env Now t at price _ _ _)

    with_atr-Keeps :
        (atr : D) (entry stop : Option D) → Keeps Now (with_atr env p t at price atr entry stop)
    unfolding with_atr
    with_atr-Keeps atr (some entry) (some stop) = adaptive-Keeps entry atr stop
    with_atr-Keeps atr (some entry) none = pure-Keeps Now tt
    with_atr-Keeps atr none stop = pure-Keeps Now tt

    by_atr-Keeps : (atr : Option D) → Keeps Now (by_atr env p t at price atr)
    unfolding by_atr
    by_atr-Keeps none = legacy-Keeps env Now t at price
    by_atr-Keeps (some atr) =
        if-Keeps Now (dec.is_zero atr) _ _ (legacy-Keeps env Now t at price)
          (with_atr-Keeps atr (trade_entry_price t) t.stop_loss)

  -- The loop keeps what holds, from tables that have the rows that it goes over.
  trades-Keeps :
      (p : AdaptiveExitParams D) (at : ℕ) (price : D) (l : List (Trade D)) (w : World D)
      → Holds (Read l) w
      → Ends (λ _. Holds T) (λ _. Unit) (shadow_evaluate_trades env p at price l w)
  unfolding shadow_evaluate_trades shadow_evaluate_one_trade
  trades-Keeps p at price [] w h = record { outcome = over w.trades w.transfers h }
  trades-Keeps p at price (t ∷ l) w h =
      Ends-bind (shadow_evaluate_one_trade env p t at price)
        (λ _. shadow_evaluate_trades env p at price l) w {P = λ _. Holds (Read (t ∷ l))}
        (Ends-weaken _ (by_atr-Keeps p at price t l t.entry_atr w h) (λ _ _ k. k) (λ _ _. tt))
        λ _ v k. trades-Keeps p at price l v (handled t l v.trades v.transfers k)

  open_buys-Read :
      (symbol : String) (w : World D)
      → Holds T w
      → Ends (λ l. Holds (Read l)) (λ _. Unit) (get_open_buy_trades_by_symbol env symbol w)
  unfolding get_open_buy_trades_by_symbol
  open_buys-Read symbol w s = elim (Bool-cases (env.db_fails w.tick)) [
    | inl bad ↦ rw bad (record { outcome = tt })
    | inr good ↦ rw good (record { outcome = reads _ w.trades w.transfers s })
  ]

  exits-Keeps :
      (p : AdaptiveExitParams D) (symbol : String) (at : ℕ) (price : D)
      → Keeps T (shadow_evaluate_exits env p symbol at price)
  unfolding shadow_evaluate_exits
  exits-Keeps p symbol at price = best_effort-Keeps T _ λ w s.
      Ends-within_transaction env T (λ _. T)
        (get_open_buy_trades_by_symbol env symbol >>= shadow_evaluate_trades env p at price) w s
        (Ends-bind (get_open_buy_trades_by_symbol env symbol)
          (shadow_evaluate_trades env p at price) (next_tick w)
          (open_buys-Read symbol (next_tick w) s) λ l v h. trades-Keeps p at price l v h)

  buy_signal-Keeps :
      (regime : RegimeCache) (provider : Provider) (cache : IndicatorCache D) (symbol : String)
      (at : ℕ) (price : D)
      → Keeps T (shadow_evaluate_buy_signal env regime provider cache symbol at price)
  unfolding shadow_evaluate_buy_signal log_regime_off log_preview
  buy_signal-Keeps regime provider cache symbol at price = best_effort-Keeps T _ (
      if-Keeps T (not (is_risk_on regime)) _ _
        (bind-Keeps T (new_uuid env) _ (Reads-Keeps T env (new_uuid env) (new_uuid-Reads env))
          λ id. Reads-Keeps T env _ (log_shadow_signal-Reads env _))
        (bind-Keeps T (preview_buy_signal env provider cache symbol price) (log_preview env)
          previews logs))
    where
      previews : Keeps T (preview_buy_signal env provider cache symbol price)
      previews w s =
          Ends-weaken (preview_buy_signal env provider cache symbol price w)
            (preview_buy_signal-shadow_gates env provider cache symbol price w)
            (λ _ v (told, (same, signals, decisions, orders)). SameTables-Holds T w v same s)
            (λ v (same, signals, decisions, orders). SameTables-Holds T w v same s)

      logs : (o : Option (Signal D)) → Keeps T (log_preview env o)
      logs none = pure-Keeps T tt
      logs (some signal) = Reads-Keeps T env _ (log_shadow_signal-Reads env signal)

  pub shadow_evaluate_bar-Keeps :
      (p : AdaptiveExitParams D) (regime : RegimeCache) (provider : Provider)
      (cache : IndicatorCache D) (event : BarEvent D)
      → Keeps T (shadow_evaluate_bar env p regime provider cache event)
  unfolding shadow_evaluate_bar
  shadow_evaluate_bar-Keeps p regime provider cache event =
      bind-Keeps T (shadow_evaluate_exits env p event.symbol event.bar_time event.price) _
        (exits-Keeps p event.symbol event.bar_time event.price)
        λ _. buy_signal-Keeps regime provider cache event.symbol event.bar_time event.price
