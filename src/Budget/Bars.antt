-- ===== src/Budget/Bars.antt =====
-- A bar of the live coordinator keeps the budget, and one of the trading coordinator.
use outbound_api.Prelude.{ℕ, Option, none, some}
use outbound_api.Decimal.{Decimal}
use outbound_api.Model.{Signal, AccountTransfer}
use outbound_api.Repository.Store.{Env, ◌>>=◌, pure}
use outbound_api.Repository.Outcome.{Ends-bind, Ends-weaken}
use outbound_api.Repository.Effects.{SameTables-Holds}
use outbound_api.Repository.Transfers.{get_available_budget}
use outbound_api.Repository.Reads.{get_available_budget-Reads}
use outbound_api.Indicator.Cache.{IndicatorCache}
use outbound_api.Service.Signal.{Provider, evaluate_buy_signal}
use outbound_api.Service.Signal.Gates.{evaluate_buy_signal-live_gates}
use outbound_api.Service.Trade.Sizing.{RiskParams}
use outbound_api.Service.Trade.Buy.{execute_buy_trade}
use outbound_api.Service.Trade.Exits.{evaluate_and_execute_exits}
use outbound_api.Strategy.Live.{BarEvent, buy_with, enter, live_evaluate_bar}
use outbound_api.Strategy.AdaptiveExit.{AdaptiveExitParams}
use outbound_api.Strategy.Trading.{shadow_evaluate_bar, evaluate_bar}
use outbound_api.Indicator.Regime.{RegimeCache}
use outbound_api.Repository.Keeps.{Keeps, bind-Keeps}
use outbound_api.Budget.Shadow.{shadow_evaluate_bar-Sound}
use outbound_api.Budget.Tables.{Sound}
use outbound_api.Budget.Buy.{execute_buy_trade-Sound}
use outbound_api.Budget.Exits.{evaluate_and_execute_exits-Sound}

module _ {D : Type 0} ⦃dec : Decimal D⦄ (env : Env D) (cfg : RiskParams D) (a total : ℕ) where
  buy_with-Sound :
      (signal : Signal D) (o : Option (AccountTransfer D))
      → Keeps (Sound a total) (buy_with env cfg signal o)
  unfolding buy_with
  buy_with-Sound signal none w s = record { outcome = s }
  buy_with-Sound signal (some budget) w s =
      Ends-bind (execute_buy_trade env cfg signal (some budget)) (λ _. pure tt) w
        (execute_buy_trade-Sound env cfg a total signal (some budget) w s)
        λ _ v s'. record { outcome = s' }

  enter-Sound : (o : Option (Signal D)) → Keeps (Sound a total) (enter env cfg o)
  unfolding enter
  enter-Sound none w s = record { outcome = s }
  enter-Sound (some signal) w s =
      Ends-bind (get_available_budget env) (buy_with env cfg signal) w
        (Ends-weaken (get_available_budget env w) (get_available_budget-Reads env w)
          (λ _ v same. SameTables-Holds (Sound a total) w v same s)
          (λ v same. SameTables-Holds (Sound a total) w v same s))
        λ o v s'. buy_with-Sound signal o v s'

  pub live_evaluate_bar-Sound :
      (provider : Provider) (cache : IndicatorCache D) (event : BarEvent D)
      → Keeps (Sound a total) (live_evaluate_bar env cfg provider cache event)
  unfolding live_evaluate_bar
  live_evaluate_bar-Sound provider cache event w s =
      Ends-bind (evaluate_and_execute_exits env event.symbol event.price)
        (λ _. evaluate_buy_signal env provider cache event.symbol event.price >>= enter env cfg) w
        (evaluate_and_execute_exits-Sound env a total event.symbol event.price w s)
        λ _ v s'.
          Ends-bind (evaluate_buy_signal env provider cache event.symbol event.price)
            (enter env cfg) v
            (Ends-weaken (evaluate_buy_signal env provider cache event.symbol event.price v)
              (evaluate_buy_signal-live_gates env provider cache event.symbol event.price v)
              (λ _ u told. SameTables-Holds (Sound a total) v u told.1 s')
              (λ u same. SameTables-Holds (Sound a total) v u same s'))
            λ o u s''. enter-Sound o u s''

  -- `EvaluateBar` of the trading coordinator: the shadow pass, then the live one.
  pub evaluate_bar-Sound :
      (p : AdaptiveExitParams D) (regime : RegimeCache) (shadow_provider provider : Provider)
      (cache : IndicatorCache D) (event : BarEvent D)
      → Keeps (Sound a total) (evaluate_bar env cfg p regime shadow_provider provider cache event)
  unfolding evaluate_bar
  evaluate_bar-Sound p regime shadow_provider provider cache event =
      bind-Keeps (Sound a total) (shadow_evaluate_bar env p regime shadow_provider cache event) _
        (shadow_evaluate_bar-Sound env a total p regime shadow_provider cache event)
        λ _. live_evaluate_bar-Sound provider cache event
