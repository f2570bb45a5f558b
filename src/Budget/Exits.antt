-- ===== src/Budget/Exits.antt =====
-- `EvaluateAndExecuteExits` keeps the budget: `Collect` has its transaction, and here the orders for
-- the collected exits follow.
mod Collect
use outbound_api.Prelude.{
  ℕ, ◌≡◌, refl, false, some, List, [], ◌∷◌, String, Option-cases, Bool-cases, inl, inr, is_present,
}
use outbound_api.Decimal.{Decimal}
use outbound_api.Model.{Trade, Signal, is_buy}
use outbound_api.Repository.Store.{
  Env, World, M, Error, next_tick, place_order, best_effort, within_transaction, new_uuid, time_now,
  ◌>>=◌, pure, throw,
}
use outbound_api.Repository.Outcome.{
  Ends, Ends-weaken, Ends-bind, Ends-best_effort, Ends-handled, Ends-within_transaction, Tables,
  Holds,
}
use outbound_api.Repository.Trades.{
  create_trade, update_trade, delete_trade, get_open_buy_trades_by_symbol,
}
use outbound_api.Repository.Signals.{create_signal, delete_signal, mark_executed}
use outbound_api.Repository.Reads.{
  place_order-Reads, new_uuid-Reads, time_now-Reads, mark_executed-Reads, create_signal-Reads,
  delete_signal-Reads, get_open_buy_trades-Reads,
}
use outbound_api.Budget.Tables.{Sound}
use outbound_api.Repository.Keeps.{Reads-keep}
use outbound_api.Budget.Sells.{
  SellAt, SoundSells, create_sell-SoundSells, update_sell-SoundSells, delete_sell-SoundSells,
}
use outbound_api.Service.Trade.Sell.{
  sell_trade_of, sell_request, settle_sell, abandon_sell, place_sell, insert_sell,
  execute_sell_trade,
}
use outbound_api.Service.Trade.Exits.{
  ExitPair, exit_reason, exit_signal, insert_exit, create_exit, open_exit, add_exit, collect_exits,
  settle_exit, abandon_exit, place_exit, place_exits, exit_transaction, evaluate_and_execute_exits,
}
use outbound_api.Budget.Exits.Collect.{exit_ids, AreSells, Collected, exit_transaction-Collected}

module _ {D : Type 0} ⦃dec : Decimal D⦄ (env : Env D) (a total : ℕ) where
  module _ (js : List ℕ) (p : ExitPair D) (sell : is_buy p.sell_trade.side ≡ false) where
    settle_exit-SoundSells :
        (order : String) (w : World D)
        → SellAt w.trades p.sell_trade.id
        → Holds (SoundSells a total js) w
        → Ends
            (λ _. Holds (SoundSells a total js))
            (Holds (SoundSells a total js))
            (settle_exit env p order w)
    unfolding settle_exit
    settle_exit-SoundSells order w at s =
        let placed : Trade D = record (p.sell_trade) { alpaca_order_id = some order } in
        Ends-bind (best_effort (update_trade env placed))
          (λ _. best_effort (mark_executed env p.signal.id)) w
          (Ends-best_effort (update_trade env placed) w (Holds (SoundSells a total js))
            (update_sell-SoundSells env a total js w placed sell at s))
          λ _ v s'.
            Ends-best_effort (mark_executed env p.signal.id) v (Holds (SoundSells a total js)) (
              Reads-keep env (SoundSells a total js) (mark_executed env p.signal.id) v
                (mark_executed-Reads env p.signal.id) s')

    abandon_exit-SoundSells :
        (e : Error) (w : World D)
        → SellAt w.trades p.sell_trade.id
        → Holds (SoundSells a total js) w
        → Ends
            (λ _. Holds (SoundSells a total js))
            (Holds (SoundSells a total js))
            (abandon_exit env p e w)
    unfolding abandon_exit
    abandon_exit-SoundSells e w at s =
        Ends-bind (best_effort (delete_trade env p.sell_trade.id))
          (λ _. best_effort (delete_signal env p.signal.id)) w
          (Ends-best_effort (delete_trade env p.sell_trade.id) w (Holds (SoundSells a total js))
            (delete_sell-SoundSells env a total js w p.sell_trade.id at s))
          λ _ v s'.
            Ends-best_effort (delete_signal env p.signal.id) v (Holds (SoundSells a total js)) (
              Reads-keep env (SoundSells a total js) (delete_signal env p.signal.id) v
                (delete_signal-Reads env p.signal.id) s')

    place_exit-SoundSells :
        (w : World D)
        → SellAt w.trades p.sell_trade.id
        → Holds (SoundSells a total js) w
        → Ends
            (λ _. Holds (SoundSells a total js))
            (Holds (SoundSells a total js))
            (place_exit env p w)
    unfolding place_exit
    place_exit-SoundSells w at s =
        Ends-handled (place_order env (sell_request p.signal p.sell_trade)) (settle_exit env p)
          (abandon_exit env p) w
          (Reads-keep env (λ ts fs. SellAt ts p.sell_trade.id × SoundSells a total js ts fs)
            (place_order env (sell_request p.signal p.sell_trade)) w
            (place_order-Reads env (sell_request p.signal p.sell_trade)) (at, s))
          (λ order v (at', s'). settle_exit-SoundSells order v at' s')
          (λ e v (at', s'). abandon_exit-SoundSells e v at' s') (λ v h. h.1)

  place_exits-Sound :
      (ps : List (ExitPair D)) (w : World D)
      → AreSells ps
      → Holds (SoundSells a total (exit_ids ps)) w
      → Ends (λ _. Holds (Sound a total)) (Holds (Sound a total)) (place_exits env ps w)
  unfolding place_exits
  place_exits-Sound [] w sells s = record { outcome = s.sound }
  place_exits-Sound (p ∷ ps) w sells s =
      Ends-bind (place_exit env p) (λ _. place_exits env ps) w
        {P = λ _. Holds (SoundSells a total (exit_ids ps))}
        (Ends-weaken _
          (place_exit-SoundSells (exit_ids ps) p sells.0 w s.sells.0
            (record { sound = s.sound; sells = s.sells.1 }))
          (λ _ _ h. h) (λ _ h. h.sound))
        λ _ v s'. place_exits-Sound ps v sells.1 s'

  pub evaluate_and_execute_exits-Sound :
      (symbol : String) (price : D) (w : World D)
      → Holds (Sound a total) w
      → Ends
          (λ _. Holds (Sound a total))
          (Holds (Sound a total))
          (evaluate_and_execute_exits env symbol price w)
  unfolding evaluate_and_execute_exits
  evaluate_and_execute_exits-Sound symbol price w s =
      Ends-bind (within_transaction env (exit_transaction env symbol price)) (place_exits env) w
        (Ends-within_transaction env (Sound a total) (Collected env a total [])
          (exit_transaction env symbol price) w s
          (exit_transaction-Collected env a total symbol price (next_tick w) s))
        λ ps v (mine, _, sells). place_exits-Sound ps v sells mine
