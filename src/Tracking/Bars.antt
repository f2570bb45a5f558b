-- ===== src/Tracking/Bars.antt =====
-- A bar of the live coordinator, and one of the trading coordinator, places no order without a row.
use outbound_api.Prelude.{arith, ℕ, ◌≡◌, refl, [], Option, none, some, String}
use outbound_api.Decimal.{Decimal}
use outbound_api.Model.{Side, Signal, AccountTransfer}
use outbound_api.Repository.Store.{Env, World, ◌>>=◌, pure, new_uuid, time_now}
use outbound_api.Repository.Outcome.{Ends, Ends_state, Ends-bind, Ends-weaken}
use outbound_api.Repository.Effects.{SameTables-Holds}
use outbound_api.Repository.Orders.{PlacesNone, pure-PlacesNone, bind-PlacesNone, if-PlacesNone}
use outbound_api.Repository.Orders.Calls.{
  new_uuid-PlacesNone, time_now-PlacesNone, create_signal-PlacesNone, has_open_position-PlacesNone,
  available_budget-PlacesNone,
}
use outbound_api.Repository.Signals.{create_signal}
use outbound_api.Repository.Trades.{has_open_position}
use outbound_api.Repository.Transfers.{get_available_budget}
use outbound_api.Repository.Reads.{get_available_budget-Reads}
use outbound_api.Repository.Keeps.{Keeps, Reads-Keeps}
use outbound_api.Indicator.Cache.{IndicatorCache, IndicatorState, get}
use outbound_api.Indicator.Regime.{RegimeCache}
use outbound_api.Service.Signal.{
  Provider, Verdict, analyze, buy_signal_of, keep_signal, conclude_evaluation, evaluate_layers,
  evaluate_buy_signal,
}
use outbound_api.Service.Signal.Gates.{evaluate_buy_signal-live_gates}
use outbound_api.Service.Trade.Sizing.{RiskParams}
use outbound_api.Service.Trade.Buy.{execute_buy_trade}
use outbound_api.Service.Trade.Exits.{evaluate_and_execute_exits}
use outbound_api.Strategy.AdaptiveExit.{AdaptiveExitParams}
use outbound_api.Strategy.Live.{BarEvent, buy_with, enter, live_evaluate_bar}
use outbound_api.Strategy.Trading.{shadow_evaluate_bar, evaluate_bar}
use outbound_api.Strategy.Trading.Writes.{shadow_evaluate_bar-Keeps}
use outbound_api.Strategy.Trading.Pass.{shadow_evaluate_bar-Calm}
use outbound_api.Tracking.Rows.{Rows, filter-Rows, update_trade-Rows}
use outbound_api.Tracking.Placing.{IsReported, Tracked, Keeps-Tracked}
use outbound_api.Tracking.Buy.{execute_buy_trade-Tracked}
use outbound_api.Tracking.Exits.{evaluate_and_execute_exits-Tracked}

module _ {D : Type 0} where
  analyze-PlacesNone :
      (provider : Provider) (symbol : String) → PlacesNone (analyze {D = D} provider symbol)
  unfolding analyze
  analyze-PlacesNone provider symbol = record { same = λ w. ground arith }

module _ {D : Type 0} ⦃dec : Decimal D⦄ (env : Env D) where
  conclude-PlacesNone :
      (symbol : String) (price : D) (state : IndicatorState D) (verdict : Verdict)
      → PlacesNone (conclude_evaluation env symbol price state verdict)
  unfolding conclude_evaluation buy_signal_of keep_signal
  conclude-PlacesNone symbol price state verdict =
      if-PlacesNone verdict.positive _ _
        (bind-PlacesNone _ (keep_signal env)
          (bind-PlacesNone (new_uuid env) _ (new_uuid-PlacesNone env) λ id.
            bind-PlacesNone (time_now env) _ (time_now-PlacesNone env) λ now. pure-PlacesNone _)
          λ signal.
            bind-PlacesNone (create_signal env signal) _ (create_signal-PlacesNone env signal)
              λ _. pure-PlacesNone (some signal))
        (pure-PlacesNone none)

  layers-PlacesNone :
      (provider : Provider) (symbol : String) (price : D) (o : Option (IndicatorState D))
      → PlacesNone (evaluate_layers env provider symbol price o)
  unfolding evaluate_layers
  layers-PlacesNone provider symbol price none = pure-PlacesNone none
  layers-PlacesNone provider symbol price (some state) =
      if-PlacesNone _ _ _ (pure-PlacesNone none) (
        if-PlacesNone _ _ _ (pure-PlacesNone none) (
          bind-PlacesNone (analyze provider symbol) (conclude_evaluation env symbol price state)
            (analyze-PlacesNone provider symbol) (conclude-PlacesNone symbol price state)))

  evaluate_buy_signal-PlacesNone :
      (provider : Provider) (cache : IndicatorCache D) (symbol : String) (price : D)
      → PlacesNone (evaluate_buy_signal env provider cache symbol price)
  unfolding evaluate_buy_signal
  evaluate_buy_signal-PlacesNone provider cache symbol price =
      bind-PlacesNone (has_open_position env symbol) _ (has_open_position-PlacesNone env symbol)
        λ taken.
          if-PlacesNone taken _ _ (pure-PlacesNone none)
            (layers-PlacesNone provider symbol price (get cache symbol))

  shadow-PlacesNone :
      (p : AdaptiveExitParams D) (regime : RegimeCache) (provider : Provider)
      (cache : IndicatorCache D) (event : BarEvent D)
      → PlacesNone (shadow_evaluate_bar env p regime provider cache event)
  shadow-PlacesNone p regime provider cache event = record {
    same = λ w.
        Ends_state (λ v. v.orders ≡ w.orders) _
          (Ends-weaken _ (shadow_evaluate_bar-Calm env p regime provider cache event w)
            (λ _ v same. same.0) (λ v same. same.0));
  }

module _ {D : Type 0} ⦃dec : Decimal D⦄ (side : Side) (symbol : String) (env : Env D)
    (reported : IsReported env) (cfg : RiskParams D) where
  abbrev IsTracked : World D → Type 0
  IsTracked = Tracked side symbol 0 []

  buy_with-Tracked :
      (signal : Signal D) (o : Option (AccountTransfer D)) (w : World D)
      → IsTracked w
      → Ends (λ _. IsTracked) IsTracked (buy_with env cfg signal o w)
  unfolding buy_with
  buy_with-Tracked signal none w h = record { outcome = h }
  buy_with-Tracked signal (some budget) w h =
      Ends-bind (execute_buy_trade env cfg signal (some budget)) (λ _. pure tt) w
        (execute_buy_trade-Tracked side symbol env reported cfg signal (some budget) w h)
        λ _ v h'. record { outcome = h' }

  enter-Tracked :
      (o : Option (Signal D)) (w : World D)
      → IsTracked w
      → Ends (λ _. IsTracked) IsTracked (enter env cfg o w)
  unfolding enter
  enter-Tracked none w h = record { outcome = h }
  enter-Tracked (some signal) w h =
      Ends-bind (get_available_budget env) (buy_with env cfg signal) w
        (Keeps-Tracked side symbol (get_available_budget env) 0 [] w
          (available_budget-PlacesNone env)
          (λ k. Reads-Keeps (Rows side symbol k []) env _ (get_available_budget-Reads env)) h)
        λ o v h'. buy_with-Tracked signal o v h'

  live_evaluate_bar-Tracked :
      (provider : Provider) (cache : IndicatorCache D) (event : BarEvent D) (w : World D)
      → IsTracked w
      → Ends (λ _. IsTracked) IsTracked (live_evaluate_bar env cfg provider cache event w)
  unfolding live_evaluate_bar
  live_evaluate_bar-Tracked provider cache event w h =
      let evaluates = evaluate_buy_signal env provider cache event.symbol event.price in
      Ends-bind (evaluate_and_execute_exits env event.symbol event.price)
        (λ _. evaluates >>= enter env cfg) w
        (evaluate_and_execute_exits-Tracked side symbol env reported event.symbol event.price w h)
        λ _ v h'.
          Ends-bind evaluates (enter env cfg) v
            (Keeps-Tracked side symbol evaluates 0 [] v
              (evaluate_buy_signal-PlacesNone env provider cache event.symbol event.price)
              (λ k u s.
                Ends-weaken (evaluates u)
                  (evaluate_buy_signal-live_gates env provider cache event.symbol event.price u)
                  (λ _ x told. SameTables-Holds (Rows side symbol k []) u x told.1 s)
                  (λ x same. SameTables-Holds (Rows side symbol k []) u x same s))
              h')
            λ o u h''. enter-Tracked o u h''

  shadow-Rows :
      (k : ℕ) (p : AdaptiveExitParams D) (regime : RegimeCache) (provider : Provider)
      (cache : IndicatorCache D) (event : BarEvent D)
      → Keeps (Rows side symbol k []) (shadow_evaluate_bar env p regime provider cache event)
  shadow-Rows k =
      shadow_evaluate_bar-Keeps env (Rows side symbol k []) (Rows side symbol k)
        (filter-Rows side symbol k)
        (λ t l x.
          update_trade-Rows side symbol env k l t (record t { peak_price = some x }) refl refl)
        (λ t l ts fs h. record { unique = h.unique; enough = h.enough; known = h.known.1 })
        (λ ts fs h. h)

  -- The shadow pass, then the live one.
  pub evaluate_bar-Tracked :
      (p : AdaptiveExitParams D) (regime : RegimeCache) (shadow_provider provider : Provider)
      (cache : IndicatorCache D) (event : BarEvent D) (w : World D)
      → IsTracked w
      → Ends
          (λ _. IsTracked)
          IsTracked
          (evaluate_bar env cfg p regime shadow_provider provider cache event w)
  unfolding evaluate_bar
  evaluate_bar-Tracked p regime shadow_provider provider cache event w h =
      Ends-bind (shadow_evaluate_bar env p regime shadow_provider cache event) _ w
        (Keeps-Tracked side symbol (shadow_evaluate_bar env p regime shadow_provider cache event) 0
          [] w (shadow-PlacesNone env p regime shadow_provider cache event)
          (λ k. shadow-Rows k p regime shadow_provider cache event) h)
        λ _ v h'. live_evaluate_bar-Tracked provider cache event v h'
