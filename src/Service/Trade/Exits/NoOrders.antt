-- ===== src/Service/Trade/Exits/NoOrders.antt =====
-- The transaction of `EvaluateAndExecuteExits` places no order.
use outbound_api.Prelude.{String, List, [], ◌∷◌, Option-cases, inl, inr}
use outbound_api.Decimal.{Decimal}
use outbound_api.Model.{Trade}
use outbound_api.Repository.Store.{Env, new_uuid, time_now}
use outbound_api.Repository.Trades.{create_trade, get_open_buy_trades_by_symbol}
use outbound_api.Repository.Signals.{create_signal}
use outbound_api.Repository.Orders.{PlacesNone, pure-PlacesNone, bind-PlacesNone}
use outbound_api.Repository.Orders.Calls.{
  create_trade-PlacesNone, create_signal-PlacesNone, new_uuid-PlacesNone, time_now-PlacesNone,
  open_buys-PlacesNone,
}
use outbound_api.Service.Trade.Exits.{
  exit_reason, exit_signal, insert_exit, create_exit, open_exit, add_exit, collect_exits,
  exit_transaction,
}

module _ {D : Type 0} ⦃dec : Decimal D⦄ (env : Env D) where
  open_exit-PlacesNone :
      (price : D) (reason : String) (t : Trade D) → PlacesNone (open_exit env price reason t)
  unfolding open_exit create_exit insert_exit
  open_exit-PlacesNone price reason t =
      bind-PlacesNone (new_uuid env) _ (new_uuid-PlacesNone env) λ id.
        bind-PlacesNone (time_now env) _ (time_now-PlacesNone env) λ at.
          bind-PlacesNone (create_signal env (exit_signal id price reason t at)) _
            (create_signal-PlacesNone env _)
            λ _. bind-PlacesNone (new_uuid env) _ (new_uuid-PlacesNone env) λ sell.
              bind-PlacesNone (create_trade env _) _ (create_trade-PlacesNone env _)
                λ _. pure-PlacesNone _

  collect_exits-PlacesNone :
      (price : D) (trades : List (Trade D)) → PlacesNone (collect_exits env price trades)
  unfolding collect_exits
  collect_exits-PlacesNone price [] = pure-PlacesNone []
  collect_exits-PlacesNone price (t ∷ trades) = elim (Option-cases (exit_reason price t)) [
    | inl holds ↦ rw holds (collect_exits-PlacesNone price trades)
    | inr (reason, exits) ↦ rw exits (
        bind-PlacesNone (open_exit env price reason t)
          (add_exit env (collect_exits env price trades)) (open_exit-PlacesNone price reason t)
          λ p.
            bind-PlacesNone (collect_exits env price trades) _
              (collect_exits-PlacesNone price trades) λ rest. pure-PlacesNone (p ∷ rest))
  ]

  pub exit_transaction-PlacesNone :
      (y : String) (price : D) → PlacesNone (exit_transaction env y price)
  unfolding exit_transaction
  exit_transaction-PlacesNone y price =
      bind-PlacesNone (get_open_buy_trades_by_symbol env y) (collect_exits env price)
        (open_buys-PlacesNone env y) (collect_exits-PlacesNone price)
