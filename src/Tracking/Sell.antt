-- ===== src/Tracking/Sell.antt =====
-- `ExecuteSellTrade`: the row of the sell is there before its order.
use mathlib.Core.Path.{subst}
use outbound_api.Prelude.{
  ℕ, ◌+◌, ◌≡◌, refl, some, String, [], ◌∷◌, arith, Bool-cases, inl, inr, is_present,
}
use outbound_api.Prelude.Table.{bit}
use outbound_api.Model.{Side, Trade, Signal}
use outbound_api.Repository.Store.{Env, World, place_order, best_effort, new_uuid, pure, throw}
use outbound_api.Repository.Outcome.{Ends, Ends-weaken, Ends-bind, Ends-handled, Holds}
use outbound_api.Repository.Trades.{create_trade, update_trade, delete_trade}
use outbound_api.Repository.Reads.{new_uuid-Reads}
use outbound_api.Repository.Keeps.{best_effort-Keeps, Reads-Keeps}
use outbound_api.Repository.Orders.{update_trade-PlacesNone}
use outbound_api.Repository.Orders.Calls.{
  best_effort-PlacesNone, create_trade-PlacesNone, delete_trade-PlacesNone, new_uuid-PlacesNone,
}
use outbound_api.Service.Trade.Sell.{
  sell_trade_of, sell_request, settle_sell, abandon_sell, place_sell, insert_sell,
  execute_sell_trade,
}
use outbound_api.Tracking.Rows.{
  is_row, is_order, placed, Rows, Inserted-Rows, create_trade-Inserted, update_trade-Rows,
  delete_row-Rows, weaken-Rows,
}
use outbound_api.Tracking.Placing.{
  IsReported, Tracked, weaken-Tracked, Ends-Tracked, Keeps-Tracked, place_order-Tracked,
}

module _ {D : Type 0} (side : Side) (symbol : String) (env : Env D)
    (reported : IsReported env) where
  module _ (signal : Signal D) (sell : Trade D) (named : sell.symbol ≡ signal.symbol)
      (sold : sell.side ≡ Side.sell) where
    abbrev b : ℕ
    b = bit (is_row side symbol sell)

    place_sell-Tracked :
        (w : World D)
        → Tracked side symbol b (sell ∷ []) w
        → Ends
            (λ _. Tracked side symbol 0 [])
            (Tracked side symbol 0 [])
            (place_sell env signal sell w)
    unfolding place_sell settle_sell abandon_sell
    place_sell-Tracked w h =
        let request = sell_request signal sell in
        let same : b ≡ 0 + bit (is_order side symbol request) = rw (sold, named) (omega arith) in
        Ends-handled (place_order env request) (settle_sell env sell) (abandon_sell env sell) w
          (place_order-Tracked side symbol env reported request 0 (sell ∷ []) w
            (subst (λ c. Tracked side symbol c (sell ∷ []) w) same h))
          (λ order v h'.
            let written : Trade D = record sell { alpaca_order_id = some order } in
            Ends-bind (best_effort (update_trade env written)) (λ _. pure written) v
              (Ends-weaken _
                (Keeps-Tracked side symbol (best_effort (update_trade env written)) 0 (sell ∷ []) v
                  (best_effort-PlacesNone _ (update_trade-PlacesNone env written))
                  (λ k.
                    best_effort-Keeps (Rows side symbol k (sell ∷ [])) _
                      (update_trade-Rows side symbol env k [] sell written refl refl))
                  h')
                (λ _ u x. forgotten u x) (λ u x. forgotten u x))
              λ _ u x. record { outcome = x })
          (λ e v h'.
            let k : ℕ = placed side symbol v + 0 in
            let start : Holds (Rows side symbol (k + b) (sell ∷ [])) v =
              weaken-Rows side symbol _ (k + b) (sell ∷ []) v.trades v.transfers
                (omega (arith, same)) h' in
            Ends-bind (best_effort (delete_trade env sell.id)) (λ _. throw e) v
              (Ends-Tracked side symbol (best_effort (delete_trade env sell.id)) v 0 [] 0 []
                (best_effort-PlacesNone _ (delete_trade-PlacesNone env sell.id))
                (delete_row-Rows side symbol env k [] sell v start))
              λ _ u x. record { outcome = x })
          (λ v x. forgotten v (weaken-Tracked side symbol _ 0 (sell ∷ []) v (omega arith) x))
      where
        forgotten : (v : World D) → Tracked side symbol 0 (sell ∷ []) v → Tracked side symbol 0 [] v
        forgotten v x = record { unique = x.unique; enough = x.enough; known = tt }

    insert_sell-Tracked :
        (w : World D)
        → Tracked side symbol 0 [] w
        → Ends
            (λ _. Tracked side symbol 0 [])
            (Tracked side symbol 0 [])
            (insert_sell env signal sell w)
    unfolding insert_sell
    insert_sell-Tracked w h =
        let k : ℕ = placed side symbol w in
        Ends-bind (create_trade env sell) (λ _. place_sell env signal sell) w
          {P = λ _. Tracked side symbol b (sell ∷ [])}
          (Ends-Tracked side symbol (create_trade env sell) w 0 [] b (sell ∷ [])
            (create_trade-PlacesNone env sell)
            (Ends-weaken _
              (create_trade-Inserted side symbol env (k + 0) [] sell w
                (record { unique = h.unique; enough = h.enough; here = tt }))
              (λ _ v x.
                weaken-Rows side symbol (k + 0 + b) (k + b) (sell ∷ []) v.trades v.transfers
                  (omega arith)
                  (Inserted-Rows side symbol (k + 0 + b) (sell ∷ []) v.trades v.transfers x))
              (λ v x. record { unique = x.unique; enough = x.enough; known = tt })))
          λ _ v h'. place_sell-Tracked v h'

  pub execute_sell_trade-Tracked :
      (signal : Signal D) (parent : Trade D) (w : World D)
      → Tracked side symbol 0 [] w
      → Ends
          (λ _. Tracked side symbol 0 [])
          (Tracked side symbol 0 [])
          (execute_sell_trade env signal parent w)
  unfolding execute_sell_trade
  execute_sell_trade-Tracked signal parent w h =
      elim (Bool-cases (is_present parent.account_transfer_id)) [
        | inr orphan ↦ rw orphan (record { outcome = h })
        | inl linked ↦ rw linked (
            Ends-bind (new_uuid env)
              (λ id. insert_sell env signal (sell_trade_of id parent signal signal.price_at_signal))
              w
              (Keeps-Tracked side symbol (new_uuid env) 0 [] w (new_uuid-PlacesNone env)
                (λ k. Reads-Keeps (Rows side symbol k []) env _ (new_uuid-Reads env)) h)
              λ id v h'.
                insert_sell-Tracked signal (sell_trade_of id parent signal signal.price_at_signal)
                  refl refl v h')
      ]
