-- ===== src/Service/Trade/Exits.antt =====
-- `EvaluateAndExecuteExits` of internal/service/trade_service.go.
pub mod NoOrders
pub mod Untracked
pub mod Due
pub mod Answers
pub mod Ready
pub mod Sells
pub mod Complete
use outbound_api.Prelude.{ℕ, Bool, false, Option, none, some, String, List, [], ◌∷◌, if◌then◌else◌}
use outbound_api.Decimal.{Decimal}
use outbound_api.Model.{Trade, Signal, Side, SignalMode}
use outbound_api.Repository.Store.{
  handled, Env, M, Error, ◌>>=◌, ◌>>◌, pure, best_effort, within_transaction, place_order, new_uuid,
  time_now,
}
use outbound_api.Repository.Trades.{
  create_trade, update_trade, delete_trade, get_open_buy_trades_by_symbol,
}
use outbound_api.Repository.Signals.{create_signal, delete_signal, mark_executed}
use outbound_api.Service.Trade.Sell.{sell_trade_of, sell_request}

pub record ExitPair (D : Type 0) : Type 0 where
  pub signal : Signal D
  pub sell_trade : Trade D

module _ {D : Type 0} ⦃dec : Decimal D⦄ where
  -- `trade.StopLoss != nil && currentPrice.LessThanOrEqual(*trade.StopLoss)`
  abbrev pub at_stop : D → Option D → Bool
  at_stop price none = false
  at_stop price (some stop) = dec.le price stop

  -- `trade.TakeProfit != nil && currentPrice.GreaterThanOrEqual(*trade.TakeProfit)`
  abbrev pub at_target : D → Option D → Bool
  at_target price none = false
  at_target price (some target) = dec.ge price target

  -- The switch of the exit loop; `none` is `continue`.
  unfoldable pub exit_reason : D → Trade D → Option String
  exit_reason price t =
      if at_stop price t.stop_loss
      then some "stop_loss"
      else if at_target price t.take_profit
      then some "take_profit"
      else none

  abbrev pub exit_signal : ℕ → D → String → Trade D → ℕ → Signal D
  exit_signal id price reason t at = record {
    id = id;
    symbol = t.symbol;
    side = Side.sell;
    price_at_signal = price;
    indicators = record { ema = dec.naught; rsi = dec.naught; atr = dec.naught };
    is_executed = false;
    mode = SignalMode.live;
    reasoning = some reason;
    created_at = at;
  }

module _ {D : Type 0} ⦃dec : Decimal D⦄ (env : Env D) where
  -- One triggered trade of the exit transaction: its signal and its sell are inserted.
  unfoldable pub insert_exit : ExitPair D → M D (ExitPair D)
  insert_exit p = create_trade env p.sell_trade >> pure p

  unfoldable pub create_exit : Trade D → D → Signal D → M D (ExitPair D)
  create_exit t price signal = do
    create_signal env signal
    id ← new_uuid env
    insert_exit (record { signal = signal; sell_trade = sell_trade_of id t signal price })

  unfoldable pub open_exit : D → String → Trade D → M D (ExitPair D)
  open_exit price reason t = do
    id ← new_uuid env
    at ← time_now env
    create_exit t price (exit_signal id price reason t at)

  -- `pending = append(pending, …)` and the rest of the loop.
  abbrev pub add_exit : M D (List (ExitPair D)) → ExitPair D → M D (List (ExitPair D))
  add_exit more p = more >>= λ rest. pure (p ∷ rest)

  -- One round of the loop; no reason is `continue`.
  abbrev pub exit_step :
      D → Trade D → M D (List (ExitPair D)) → Option String → M D (List (ExitPair D))
  exit_step price t more none = more
  exit_step price t more (some reason) = open_exit price reason t >>= add_exit more

  -- The loop of the exit transaction.
  unfoldable pub collect_exits : D → List (Trade D) → M D (List (ExitPair D))
  collect_exits price [] = pure []
  collect_exits price (t ∷ trades) =
      exit_step price t (collect_exits price trades) (exit_reason price t)

  -- One order of the second loop.
  unfoldable pub settle_exit : ExitPair D → String → M D (Unit {0})
  settle_exit p order =
      best_effort (update_trade env (record (p.sell_trade) { alpaca_order_id = some order }))
      >> best_effort (mark_executed env p.signal.id)

  -- An error of `PlaceOrder` deletes the sell and its signal.
  unfoldable pub abandon_exit : ExitPair D → Error → M D (Unit {0})
  abandon_exit p e =
      best_effort (delete_trade env p.sell_trade.id) >> best_effort (delete_signal env p.signal.id)

  unfoldable pub place_exit : ExitPair D → M D (Unit {0})
  place_exit p =
      handled (place_order env (sell_request p.signal p.sell_trade)) (settle_exit p)
        (abandon_exit p)

  unfoldable pub place_exits : List (ExitPair D) → M D (Unit {0})
  place_exits [] = pure tt
  place_exits (p ∷ rest) = place_exit p >> place_exits rest

  unfoldable pub exit_transaction : String → D → M D (List (ExitPair D))
  exit_transaction symbol price = get_open_buy_trades_by_symbol env symbol >>= collect_exits price

  unfoldable pub evaluate_and_execute_exits : String → D → M D (Unit {0})
  evaluate_and_execute_exits symbol price =
      within_transaction env (exit_transaction symbol price) >>= place_exits
