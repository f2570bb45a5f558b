-- ===== src/Tracking/Buy.antt =====
-- `ExecuteBuyTrade`: the row of the buy is there before its order.
use outbound_api.Prelude.{
  ℕ, ◌+◌, ◌≡◌, refl, Option, none, some, String, [], ◌∷◌, arith, Bool-cases, Option-cases, inl, inr,
}
use mathlib.Core.Path.{subst}
use outbound_api.Prelude.Table.{bit}
use outbound_api.Decimal.{Decimal}
use outbound_api.Model.{Side, Trade, Signal, AccountTransfer}
use outbound_api.Repository.Store.{
  Env, World, next_tick, place_order, best_effort, within_transaction, ◌>>=◌, new_uuid, pure, throw,
}
use outbound_api.Repository.Outcome.{
  Ends, Ends-weaken, Ends-bind, Ends-handled, Ends-within_transaction,
}
use outbound_api.Repository.Trades.{update_trade}
use outbound_api.Repository.Transfers.{has_slot}
use outbound_api.Repository.Signals.{mark_executed}
use outbound_api.Repository.Reads.{new_uuid-Reads, mark_executed-Reads}
use outbound_api.Repository.Keeps.{Keeps, best_effort-Keeps, Reads-Keeps}
use outbound_api.Repository.Orders.{
  PlacesNone, within_transaction-PlacesNone, update_trade-PlacesNone,
}
use outbound_api.Repository.Orders.Calls.{
  best_effort-PlacesNone, mark_executed-PlacesNone, new_uuid-PlacesNone,
}
use outbound_api.Service.Trade.Buy.{
  reserve_buy, cancel_buy, cancel_trade_and_restore_slot, settle_buy, abandon_buy, place_buy,
  buy_refused, commit_buy, open_buy, execute_buy_trade, buy_trade, buy_request,
}
use outbound_api.Service.Trade.Sizing.{RiskParams, size_position}
use outbound_api.Budget.Buy.{buy_refused-keep}
use outbound_api.Tracking.Rows.{
  is_row, is_order, placed, Rows, update_trade-Rows, weaken-Rows, forget-Rows,
}
use outbound_api.Tracking.Placing.{
  IsReported, Tracked, weaken-Tracked, Ends-Tracked, Keeps-Tracked, place_order-Tracked,
}
use outbound_api.Tracking.Reserve.{
  reserve_buy-Rows, reserve_buy-PlacesNone, cancel_buy-PlacesNone, cancel_buy-Rows,
}

module _ {D : Type 0} (side : Side) (symbol : String) (env : Env D)
    (reported : IsReported env) where
  module _ (t : Trade D) where
    -- A write of the buy with its side and symbol.
    update-Tracked :
        (c : ℕ) (new : Trade D) (w : World D)
        → new.id ≡ t.id
        → is_row side symbol new ≡ is_row side symbol t
        → Tracked side symbol c (t ∷ []) w
        → Ends
            (λ _. Tracked side symbol c (t ∷ []))
            (Tracked side symbol c (t ∷ []))
            (best_effort (update_trade env new) w)
    update-Tracked c new w id same h =
        Keeps-Tracked side symbol (best_effort (update_trade env new)) c (t ∷ []) w
          (best_effort-PlacesNone _ (update_trade-PlacesNone env new))
          (λ k.
            best_effort-Keeps (Rows side symbol k (t ∷ [])) _
              (update_trade-Rows side symbol env k [] t new id same))
          h

    cancel-Tracked :
        (c : ℕ) (w : World D)
        → Tracked side symbol c (t ∷ []) w
        → Ends
            (λ _. Tracked side symbol c (t ∷ []))
            (Tracked side symbol c (t ∷ []))
            (cancel_trade_and_restore_slot env t w)
    unfolding cancel_trade_and_restore_slot
    cancel-Tracked c w h =
        Keeps-Tracked side symbol (cancel_trade_and_restore_slot env t) c (t ∷ []) w
          (best_effort-PlacesNone _ (within_transaction-PlacesNone env _ quiet)) keeps h
      where
        quiet : PlacesNone (cancel_buy env t)
        quiet = cancel_buy-PlacesNone side symbol env t

        keeps : (k : ℕ) → Keeps (Rows side symbol k (t ∷ [])) (cancel_trade_and_restore_slot env t)
        keeps k = best_effort-Keeps (Rows side symbol k (t ∷ [])) _ λ v h'.
            Ends-within_transaction env (Rows side symbol k (t ∷ []))
              (λ _. Rows side symbol k (t ∷ [])) (cancel_buy env t) v h'
              (Ends-weaken _ (cancel_buy-Rows side symbol env t k (next_tick v) h') (λ _ _ x. x)
                (λ _ _. tt))

    settle_buy-Tracked :
        (signal : Signal D) (order : String) (w : World D)
        → Tracked side symbol 0 (t ∷ []) w
        → Ends
            (λ _. Tracked side symbol 0 (t ∷ []))
            (Tracked side symbol 0 (t ∷ []))
            (settle_buy env t signal order w)
    unfolding settle_buy
    settle_buy-Tracked signal order w h =
        let placed_trade : Trade D = record t { alpaca_order_id = some order } in
        Ends-bind (best_effort (update_trade env placed_trade))
          (λ _. best_effort (mark_executed env signal.id) >>= λ _. pure (some placed_trade)) w
          (update-Tracked 0 placed_trade w refl refl h)
          λ _ v h'.
            Ends-bind (best_effort (mark_executed env signal.id)) (λ _. pure (some placed_trade)) v
              (Keeps-Tracked side symbol (best_effort (mark_executed env signal.id)) 0 (t ∷ []) v
                (best_effort-PlacesNone _ (mark_executed-PlacesNone env signal.id))
                (λ k. best_effort-Keeps (Rows side symbol k (t ∷ [])) _ (
                  Reads-Keeps (Rows side symbol k (t ∷ [])) env _
                    (mark_executed-Reads env signal.id)))
                h')
              λ _ u h''. record { outcome = h'' }

    place_buy-Tracked :
        (signal : Signal D) (w : World D)
        → t.symbol ≡ signal.symbol
        → t.side ≡ Side.buy
        → Tracked side symbol (bit (is_row side symbol t)) (t ∷ []) w
        → Ends (λ _. Tracked side symbol 0 []) (Tracked side symbol 0 []) (place_buy env t signal w)
    unfolding place_buy abandon_buy
    place_buy-Tracked signal w named buys h =
        let request = buy_request signal t in
        let same : bit (is_row side symbol t) ≡ 0 + bit (is_order side symbol request) =
          rw (buys, named) (omega arith) in
        Ends-weaken (place_buy env t signal w)
          (Ends-handled (place_order env request) (settle_buy env t signal) (abandon_buy env t) w
            (place_order-Tracked side symbol env reported request 0 (t ∷ []) w
              (subst (λ c. Tracked side symbol c (t ∷ []) w) same h))
            (λ order v h'. settle_buy-Tracked signal order v h')
            (λ e v h'.
              Ends-bind (cancel_trade_and_restore_slot env t) (λ _. throw e) v
                (cancel-Tracked 0 v (weaken-Tracked side symbol _ 0 (t ∷ []) v (omega arith) h'))
                λ _ u h''. record { outcome = h'' })
            (λ v h'. weaken-Tracked side symbol _ 0 (t ∷ []) v (omega arith) h'))
          (λ _ v h'. forget-Rows side symbol _ (t ∷ []) v.trades v.transfers h')
          (λ v h'. forget-Rows side symbol _ (t ∷ []) v.trades v.transfers h')

    commit_buy-Tracked :
        (signal : Signal D) (account : AccountTransfer D) (w : World D)
        → t.symbol ≡ signal.symbol
        → t.side ≡ Side.buy
        → Tracked side symbol 0 [] w
        → Ends
            (λ _. Tracked side symbol 0 [])
            (Tracked side symbol 0 [])
            (commit_buy env signal account t w)
    unfolding commit_buy
    commit_buy-Tracked signal account w named buys h =
        let reserve = within_transaction env (reserve_buy env t account.id) in
        let b : ℕ = bit (is_row side symbol t) in
        let k : ℕ = placed side symbol w in
        Ends-handled reserve (λ _. place_buy env t signal) (buy_refused env) w
          (Ends-Tracked side symbol reserve w 0 [] b (t ∷ [])
            (within_transaction-PlacesNone env _
              (reserve_buy-PlacesNone side symbol env t account.id))
            (Ends-within_transaction env (Rows side symbol (k + 0) [])
              (λ _. Rows side symbol (k + b) (t ∷ [])) (reserve_buy env t account.id) w h
              (Ends-weaken _ (reserve_buy-Rows side symbol env t (k + 0) account.id (next_tick w) h)
                (λ _ v h'.
                  weaken-Rows side symbol _ (k + b) (t ∷ []) v.trades v.transfers (omega arith) h')
                (λ _ _. tt))))
          (λ _ v h'. place_buy-Tracked signal v named buys h')
          (λ e v h'. buy_refused-keep env (Tracked side symbol 0 []) e v h') (λ v h'. h')

module _ {D : Type 0} ⦃dec : Decimal D⦄ (side : Side) (symbol : String) (env : Env D)
    (reported : IsReported env) (cfg : RiskParams D) where
  open_buy-Tracked :
      (signal : Signal D) (account : AccountTransfer D) (quantity : D) (w : World D)
      → Tracked side symbol 0 [] w
      → Ends
          (λ _. Tracked side symbol 0 [])
          (Tracked side symbol 0 [])
          (open_buy env cfg signal account quantity w)
  unfolding open_buy buy_trade
  open_buy-Tracked signal account quantity w h =
      Ends-bind (new_uuid env)
        (λ id. commit_buy env signal account (buy_trade cfg id signal account quantity)) w
        (Keeps-Tracked side symbol (new_uuid env) 0 [] w (new_uuid-PlacesNone env)
          (λ k. Reads-Keeps (Rows side symbol k []) env _ (new_uuid-Reads env)) h)
        λ id v h'.
          commit_buy-Tracked side symbol env reported (buy_trade cfg id signal account quantity)
            signal account v refl refl h'

  pub execute_buy_trade-Tracked :
      (signal : Signal D) (account : Option (AccountTransfer D)) (w : World D)
      → Tracked side symbol 0 [] w
      → Ends
          (λ _. Tracked side symbol 0 [])
          (Tracked side symbol 0 [])
          (execute_buy_trade env cfg signal account w)
  unfolding execute_buy_trade
  execute_buy_trade-Tracked signal none w s = record { outcome = s }
  execute_buy_trade-Tracked signal (some account) w s =
      elim (Bool-cases (has_slot account.remaining_trades)) [
        | inr full ↦ rw full (record { outcome = s })
        | inl free ↦ rw free (elim (Option-cases (size_position cfg signal account)) [
          | inl panics ↦ rw panics (record { outcome = s })
          | inr (q, sized) ↦ rw sized (elim (Bool-cases (dec.le q dec.naught)) [
            | inl nothing ↦ rw nothing (record { outcome = s })
            | inr some_shares ↦ rw some_shares (open_buy-Tracked signal account q w s)
          ])
        ])
      ]
