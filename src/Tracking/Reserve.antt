-- ===== src/Tracking/Reserve.antt =====
-- The transactions of `ExecuteBuyTrade`: they insert the row of the buy, and keep it when it is cancelled.
use outbound_api.Prelude.{
  ℕ, ◌+◌, refl, Bool, true, false, Option, none, some, String, List, [], ◌∷◌,
}
use outbound_api.Prelude.Table.{bit}
use outbound_api.Model.{Side, Status, Trade}
use outbound_api.Repository.Store.{Env, World, position_already_open}
use outbound_api.Repository.Outcome.{Ends, Ends-weaken, Ends-bind, Holds}
use outbound_api.Repository.Trades.{create_trade, update_trade, has_open_position}
use outbound_api.Repository.Transfers.{decrement_remaining_trades, increment_remaining_trades}
use outbound_api.Repository.Effects.{decrement_effect, increment_effect}
use outbound_api.Repository.Reads.{has_open_position_effect}
use outbound_api.Repository.Keeps.{Keeps, pure-Keeps, bind-Keeps}
use outbound_api.Repository.Orders.{PlacesNone, bind-PlacesNone, update_trade-PlacesNone}
use outbound_api.Repository.Orders.Calls.{
  throw-PlacesNone, create_trade-PlacesNone, has_open_position-PlacesNone, decrement-PlacesNone,
}
use outbound_api.Service.Trade.Buy.{insert_buy, reserve_buy, cancel_buy, restore_account}
use outbound_api.Service.Trade.Updates.NoOrders.{restore_account-PlacesNone}
use outbound_api.Tracking.Rows.{
  is_row, Rows, Inserted, Inserted-Rows, create_trade-Inserted, update_trade-Rows, same_trades-Rows,
}

module _ {D : Type 0} (side : Side) (symbol : String) (env : Env D) where
  -- The slots are in the other table.
  pub increment-Rows :
      (k : ℕ) (l : List (Trade D)) (id : ℕ)
      → Keeps (Rows side symbol k l) (increment_remaining_trades env id)
  increment-Rows k l id w h =
      Ends-weaken (increment_remaining_trades env id w) (increment_effect env id w)
        (λ _ v (known, same, changed). same_trades-Rows side symbol k l w v same h)
        (λ v same. same_trades-Rows side symbol k l w v same.0 h)

  pub restore_account-Rows :
      (k : ℕ) (l : List (Trade D)) (o : Option ℕ)
      → Keeps (Rows side symbol k l) (restore_account env o)
  restore_account-Rows k l none = pure-Keeps (Rows side symbol k l) tt
  restore_account-Rows k l (some a) = increment-Rows k l a

  module _ (t : Trade D) where
    insert_buy-Inserted :
        (k a : ℕ) (taken : Bool) (w : World D)
        → Holds (Inserted side symbol k []) w
        → Ends
            (λ _. Holds (Rows side symbol (k + bit (is_row side symbol t)) (t ∷ [])))
            (λ _. Unit)
            (insert_buy env t a taken w)
    unfolding insert_buy
    insert_buy-Inserted k a true w h = record { outcome = tt }
    insert_buy-Inserted k a false w h =
        let k' : ℕ = k + bit (is_row side symbol t) in
        Ends-bind (create_trade env t) (λ _. decrement_remaining_trades env a) w
          (Ends-weaken _ (create_trade-Inserted side symbol env k [] t w h) (λ _ _ h'. h')
            (λ _ _. tt))
          λ _ v h'.
            let rows : Holds (Rows side symbol k' (t ∷ [])) v =
              Inserted-Rows side symbol k' (t ∷ []) v.trades v.transfers h' in
            Ends-weaken (decrement_remaining_trades env a v) (decrement_effect env a v)
              (λ _ u (free, same, changed). same_trades-Rows side symbol k' (t ∷ []) v u same rows)
              (λ _ _. tt)

    pub reserve_buy-Rows :
        (k a : ℕ) (w : World D)
        → Holds (Rows side symbol k []) w
        → Ends
            (λ _. Holds (Rows side symbol (k + bit (is_row side symbol t)) (t ∷ [])))
            (λ _. Unit)
            (reserve_buy env t a w)
    unfolding reserve_buy
    reserve_buy-Rows k a w h =
        Ends-bind (has_open_position env t.symbol) (insert_buy env t a) w
          (Ends-weaken _ (has_open_position_effect env t.symbol w)
            (λ _ v (same, _). same_trades-Rows side symbol k [] w v same.0 h) (λ _ _. tt))
          λ taken v h'.
            insert_buy-Inserted k a taken v
              (record { unique = h'.unique; enough = h'.enough; here = tt })

    pub reserve_buy-PlacesNone : (a : ℕ) → PlacesNone (reserve_buy env t a)
    unfolding reserve_buy insert_buy
    reserve_buy-PlacesNone a =
        bind-PlacesNone (has_open_position env t.symbol) (insert_buy env t a)
          (has_open_position-PlacesNone env t.symbol) inserts
      where
        inserts : (taken : Bool) → PlacesNone (insert_buy env t a taken)
        inserts true = throw-PlacesNone position_already_open
        inserts false =
            bind-PlacesNone (create_trade env t) (λ _. decrement_remaining_trades env a)
              (create_trade-PlacesNone env t) λ _. decrement-PlacesNone env a

    pub cancel_buy-PlacesNone : PlacesNone (cancel_buy env t)
    unfolding cancel_buy
    cancel_buy-PlacesNone =
        bind-PlacesNone (update_trade env (record t { status = Status.cancelled })) _
          (update_trade-PlacesNone env (record t { status = Status.cancelled }))
          λ _. restore_account-PlacesNone env t.account_transfer_id

    pub cancel_buy-Rows : (k : ℕ) → Keeps (Rows side symbol k (t ∷ [])) (cancel_buy env t)
    unfolding cancel_buy
    cancel_buy-Rows k =
        bind-Keeps (Rows side symbol k (t ∷ []))
          (update_trade env (record t { status = Status.cancelled })) _
          (update_trade-Rows side symbol env k [] t (record t { status = Status.cancelled }) refl
            refl)
          λ _. restore_account-Rows k (t ∷ []) t.account_transfer_id
