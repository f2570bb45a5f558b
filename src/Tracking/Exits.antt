-- ===== src/Tracking/Exits.antt =====
-- `EvaluateAndExecuteExits`: the rows of all sells are there before the first order, and an
-- error of `PlaceOrder` takes only its own row away.
use mathlib.Core.Path.{subst}
use outbound_api.Prelude.{ℕ, ◌+◌, ◌≡◌, refl, sym, some, String, List, [], ◌∷◌, arith}
use outbound_api.Prelude.Table.{bit}
use outbound_api.Decimal.{Decimal}
use outbound_api.Model.{Side, Trade}
use outbound_api.Repository.Store.{
  Env, World, Error, next_tick, place_order, best_effort, within_transaction,
}
use outbound_api.Repository.Outcome.{
  Ends, Ends-weaken, Ends-bind, Ends-handled, Ends-within_transaction, Holds,
}
use outbound_api.Repository.Trades.{update_trade, delete_trade}
use outbound_api.Repository.Signals.{delete_signal, mark_executed}
use outbound_api.Repository.Reads.{delete_signal-Reads, mark_executed-Reads}
use outbound_api.Repository.Keeps.{best_effort-Keeps, Reads-Keeps}
use outbound_api.Repository.Orders.{within_transaction-PlacesNone, update_trade-PlacesNone}
use outbound_api.Repository.Orders.Calls.{
  best_effort-PlacesNone, delete_trade-PlacesNone, delete_signal-PlacesNone,
  mark_executed-PlacesNone, Ends-orders,
}
use outbound_api.Service.Trade.Sell.{sell_request}
use outbound_api.Service.Trade.Exits.{
  ExitPair, settle_exit, abandon_exit, place_exit, place_exits, exit_transaction,
  evaluate_and_execute_exits,
}
use outbound_api.Service.Trade.Exits.NoOrders.{exit_transaction-PlacesNone}
use outbound_api.Tracking.Rows.{
  is_row, is_order, placed, rows, Rows, Inserted-Rows, update_trade-Rows, delete_row-Rows,
  weaken-Rows,
}
use outbound_api.Tracking.Collect.{sells, IsExit, AreExits, Collected, exit_transaction-Collected}
use outbound_api.Tracking.Placing.{
  IsReported, Tracked, weaken-Tracked, same_orders-Tracked, Ends-Tracked, Keeps-Tracked,
  place_order-Tracked,
}

module _ {D : Type 0} ⦃dec : Decimal D⦄ (side : Side) (symbol : String) (env : Env D)
    (reported : IsReported env) where
  module _ (p : ExitPair D) (c : ℕ) (l : List (Trade D)) where
    abbrev b : ℕ
    b = bit (is_row side symbol p.sell_trade)

    settle_exit-Tracked :
        (order : String) (w : World D)
        → Tracked side symbol c (p.sell_trade ∷ l) w
        → Ends
            (λ _. Tracked side symbol c (p.sell_trade ∷ l))
            (Tracked side symbol c (p.sell_trade ∷ l))
            (settle_exit env p order w)
    unfolding settle_exit
    settle_exit-Tracked order w h =
        let sold : Trade D = record (p.sell_trade) { alpaca_order_id = some order } in
        Ends-bind (best_effort (update_trade env sold))
          (λ _. best_effort (mark_executed env p.signal.id)) w
          (Keeps-Tracked side symbol (best_effort (update_trade env sold)) c (p.sell_trade ∷ l) w
            (best_effort-PlacesNone _ (update_trade-PlacesNone env sold))
            (λ k.
              best_effort-Keeps (Rows side symbol k (p.sell_trade ∷ l)) _
                (update_trade-Rows side symbol env k l p.sell_trade sold refl refl))
            h)
          λ _ v h'.
            Keeps-Tracked side symbol (best_effort (mark_executed env p.signal.id)) c
              (p.sell_trade ∷ l) v
              (best_effort-PlacesNone _ (mark_executed-PlacesNone env p.signal.id))
              (λ k. best_effort-Keeps (Rows side symbol k (p.sell_trade ∷ l)) _ (
                Reads-Keeps (Rows side symbol k (p.sell_trade ∷ l)) env _
                  (mark_executed-Reads env p.signal.id)))
              h'

    abandon_exit-Tracked :
        (e : Error) (w : World D)
        → Tracked side symbol (c + b) (p.sell_trade ∷ l) w
        → Ends (λ _. Tracked side symbol c l) (Tracked side symbol c l) (abandon_exit env p e w)
    unfolding abandon_exit
    abandon_exit-Tracked e w h =
        let k : ℕ = placed side symbol w + c in
        let start : Holds (Rows side symbol (k + b) (p.sell_trade ∷ l)) w =
          weaken-Rows side symbol _ (k + b) (p.sell_trade ∷ l) w.trades w.transfers (omega arith)
            h in
        Ends-bind (best_effort (delete_trade env p.sell_trade.id))
          (λ _. best_effort (delete_signal env p.signal.id)) w
          (Ends-Tracked side symbol (best_effort (delete_trade env p.sell_trade.id)) w c l c l
            (best_effort-PlacesNone _ (delete_trade-PlacesNone env p.sell_trade.id))
            (delete_row-Rows side symbol env k l p.sell_trade w start))
          λ _ v h'.
            Keeps-Tracked side symbol (best_effort (delete_signal env p.signal.id)) c l v
              (best_effort-PlacesNone _ (delete_signal-PlacesNone env p.signal.id))
              (λ j.
                best_effort-Keeps (Rows side symbol j l) _
                  (Reads-Keeps (Rows side symbol j l) env _ (delete_signal-Reads env p.signal.id)))
              h'

    rest_Tracked :
        (w : World D) → Tracked side symbol c (p.sell_trade ∷ l) w → Tracked side symbol c l w
    rest_Tracked w h = record { unique = h.unique; enough = h.enough; known = h.known.1 }

    place_exit-Tracked :
        (w : World D)
        → IsExit p
        → Tracked side symbol (c + b) (p.sell_trade ∷ l) w
        → Ends (λ _. Tracked side symbol c l) (Tracked side symbol c l) (place_exit env p w)
    unfolding place_exit
    place_exit-Tracked w exit h =
        let request = sell_request p.signal p.sell_trade in
        let same : b ≡ bit (is_order side symbol request) = rw (exit.sold, exit.named) refl in
        let fewer : (v : World D)
            → Tracked side symbol (c + bit (is_order side symbol request)) (p.sell_trade ∷ l) v
            → Tracked side symbol c l v =
          λ v h'.
            rest_Tracked v (weaken-Tracked side symbol _ c (p.sell_trade ∷ l) v (omega arith) h') in
        Ends-handled (place_order env request) (settle_exit env p) (abandon_exit env p) w
          (place_order-Tracked side symbol env reported request c (p.sell_trade ∷ l) w
            (subst (λ n. Tracked side symbol (c + n) (p.sell_trade ∷ l) w) same h))
          (λ order v h'.
            Ends-weaken _ (settle_exit-Tracked order v h') (λ _ u x. rest_Tracked u x)
              (λ u x. rest_Tracked u x))
          (λ e v h'.
            abandon_exit-Tracked e v
              (subst (λ n. Tracked side symbol (c + n) (p.sell_trade ∷ l) v) (sym same) h'))
          fewer

  place_exits-Tracked :
      (ps : List (ExitPair D)) (w : World D)
      → AreExits ps
      → Tracked side symbol (rows side symbol (sells ps)) (sells ps) w
      → Ends (λ _. Tracked side symbol 0 []) (Tracked side symbol 0 []) (place_exits env ps w)
  unfolding place_exits
  place_exits-Tracked [] w exits h = record { outcome = h }
  place_exits-Tracked (p ∷ ps) w exits h =
      let c : ℕ = rows side symbol (sells ps) in
      Ends-bind (place_exit env p) (λ _. place_exits env ps) w
        {P = λ _. Tracked side symbol c (sells ps)}
        (Ends-weaken _
          (place_exit-Tracked p c (sells ps) w exits.0 (
            weaken-Tracked side symbol _ (c + bit (is_row side symbol p.sell_trade))
              (sells (p ∷ ps)) w (ground arith) h))
          (λ _ _ x. x)
          (λ v x.
            let y = weaken-Tracked side symbol c 0 (sells ps) v (omega arith) x in
            record { unique = y.unique; enough = y.enough; known = tt }))
        λ _ v h'. place_exits-Tracked ps v exits.1 h'

  pub evaluate_and_execute_exits-Tracked :
      (y : String) (price : D) (w : World D)
      → Tracked side symbol 0 [] w
      → Ends
          (λ _. Tracked side symbol 0 [])
          (Tracked side symbol 0 [])
          (evaluate_and_execute_exits env y price w)
  unfolding evaluate_and_execute_exits
  evaluate_and_execute_exits-Tracked y price w h =
      let k : ℕ = placed side symbol w + 0 in
      let body = within_transaction env (exit_transaction env y price) in
      Ends-bind body (place_exits env) w
        {P = λ ps v. AreExits ps × Tracked side symbol (rows side symbol (sells ps)) (sells ps) v}
        (Ends-weaken _
          (Ends-orders body w (λ ps. Holds (Collected side symbol env k [] ps))
            (Holds (Rows side symbol k []))
            (within_transaction-PlacesNone env _ (exit_transaction-PlacesNone env y price))
            (Ends-within_transaction env (Rows side symbol k []) (Collected side symbol env k [])
              (exit_transaction env y price) w h
              (exit_transaction-Collected side symbol env k y price (next_tick w) h)))
          (λ ps v ((mine, others, exits), same).
            let n : ℕ = rows side symbol (sells ps) in
            let here = Inserted-Rows side symbol (k + n) (sells ps) v.trades v.transfers mine in
            (
              exits,
              same_orders-Tracked side symbol n (sells ps) w v same (
                  weaken-Rows side symbol (k + n) (placed side symbol w + n) (sells ps) v.trades
                    v.transfers (omega arith) here),
            ))
          (λ v (rows, same). same_orders-Tracked side symbol 0 [] w v same rows))
        λ ps v (exits, h'). place_exits-Tracked ps v exits h'
