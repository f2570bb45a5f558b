-- ===== src/Service/Trade/Updates/NoOrders.antt =====
-- `ApplyTradeUpdates` and the return of a slot place no order.
use outbound_api.Prelude.{Option, none, some, ◌&&◌}
use outbound_api.Decimal.{Decimal}
use outbound_api.Model.{Trade, Status, is_terminal, is_void, is_buy}
use outbound_api.Repository.Store.{Env}
use outbound_api.Repository.Orders.{
  PlacesNone, pure-PlacesNone, bind-PlacesNone, if-PlacesNone, within_transaction-PlacesNone,
  update_trade-PlacesNone, by_order-PlacesNone, increment-PlacesNone,
}
use outbound_api.Repository.Trades.{update_trade, get_by_alpaca_order_id}
use outbound_api.Service.Trade.Sizing.{RiskParams}
use outbound_api.Service.Trade.Updates.{
  TradeUpdate, reconciled, restore_slot, reconcile, apply_to, apply_trade_updates,
}
use outbound_api.Service.Trade.Buy.{restore_account}

module _ {D : Type 0} (env : Env D) where
  pub restore_account-PlacesNone : (o : Option _) → PlacesNone (restore_account env o)
  restore_account-PlacesNone none = pure-PlacesNone tt
  restore_account-PlacesNone (some a) = increment-PlacesNone env a

module _ {D : Type 0} ⦃dec : Decimal D⦄ (env : Env D) (cfg : RiskParams D) where
  apply_to-PlacesNone :
      (u : TradeUpdate D) (status : Status) (o : Option (Trade D))
      → PlacesNone (apply_to env cfg u status o)
  unfolding apply_to reconcile restore_slot
  apply_to-PlacesNone u status none = pure-PlacesNone tt
  apply_to-PlacesNone u status (some t) =
      if-PlacesNone (is_terminal t.status) _ _ (pure-PlacesNone tt) (
        within_transaction-PlacesNone env _ (
          bind-PlacesNone (update_trade env (reconciled cfg u status t)) _
            (update_trade-PlacesNone env (reconciled cfg u status t))
            λ _.
              if-PlacesNone (is_void status && is_buy t.side) _ _
                (restore_account-PlacesNone env t.account_transfer_id) (pure-PlacesNone tt)))

  pub apply_trade_updates-PlacesNone :
      (u : TradeUpdate D) (status : Status) → PlacesNone (apply_trade_updates env cfg u status)
  unfolding apply_trade_updates
  apply_trade_updates-PlacesNone u status =
      bind-PlacesNone (get_by_alpaca_order_id env u.order_id) (apply_to env cfg u status)
        (by_order-PlacesNone env u.order_id) (apply_to-PlacesNone u status)
