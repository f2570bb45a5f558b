-- ===== src/Strategy/Live.antt =====
-- internal/strategy/live_coordinator.go: a bar is evaluated for exits first, then for a buy.
use outbound_api.Prelude.{ℕ, Option, none, some, String}
use outbound_api.Decimal.{Decimal}
use outbound_api.Model.{Signal, AccountTransfer}
use outbound_api.Repository.Store.{Env, M, ◌>>=◌, ◌>>◌, pure}
use outbound_api.Service.Account.{get_available_budget}
use outbound_api.Indicator.Cache.{IndicatorCache}
use outbound_api.Service.Signal.{Provider, evaluate_buy_signal}
use outbound_api.Service.Trade.Sizing.{RiskParams}
use outbound_api.Service.Trade.Buy.{execute_buy_trade}
use outbound_api.Service.Trade.Exits.{evaluate_and_execute_exits}

pub record BarEvent (D : Type 0) : Type 0 where
  pub symbol : String
  pub price : D
  pub bar_time : ℕ

module _ {D : Type 0} ⦃dec : Decimal D⦄ (env : Env D) (cfg : RiskParams D) where
  unfoldable pub buy_with : Signal D → Option (AccountTransfer D) → M D (Unit {0})
  buy_with signal none = pure tt
  buy_with signal (some budget) = execute_buy_trade env cfg signal (some budget) >> pure tt

  unfoldable pub enter : Option (Signal D) → M D (Unit {0})
  enter none = pure tt
  enter (some signal) = get_available_budget env >>= buy_with signal

  unfoldable pub live_evaluate_bar : Provider → IndicatorCache D → BarEvent D → M D (Unit {0})
  live_evaluate_bar provider cache event =
      evaluate_and_execute_exits env event.symbol event.price
      >> (evaluate_buy_signal env provider cache event.symbol event.price >>= enter)
