-- ===== src/Tracking/Updates.antt =====
-- `ApplyTradeUpdates` leaves the rows: it changes neither the side nor the symbol of a trade.
use outbound_api.Prelude.{
  ℕ, ◌≡◌, refl, sym, ◌∙◌, ap, ◌&&◌, Option, none, some, [], ◌∷◌, String, Bool-cases, inl, inr, find,
}
use mathlib.Core.Option.{some-injective}
use outbound_api.Prelude.Table.{lookup-find}
use outbound_api.Decimal.{Decimal}
use outbound_api.Model.{Side, Trade, Status, is_buy, is_terminal, is_void}
use outbound_api.Repository.Store.{Env, World, ◌>>◌}
use outbound_api.Repository.Outcome.{Ends, Ends-weaken, Ends-bind, Holds}
use outbound_api.Repository.Trades.{update_trade, get_by_alpaca_order_id, same_order}
use outbound_api.Repository.Effects.{SameTables-Holds}
use outbound_api.Repository.Reads.{get_by_alpaca_order_id_effect}
use outbound_api.Repository.Keeps.{
  Keeps, pure-Keeps, bind-Keeps, if-Keeps, within_transaction-Keeps,
}
use outbound_api.Repository.Alike.{trade_id}
use outbound_api.Service.Trade.Sizing.{RiskParams}
use outbound_api.Service.Trade.Updates.{
  TradeUpdate, reconciled, restore_slot, reconcile, apply_to, apply_trade_updates,
}
use outbound_api.Service.Trade.Updates.NoOrders.{apply_trade_updates-PlacesNone}
use outbound_api.Tracking.Rows.{is_row, Rows, update_trade-Rows, forget-Rows}
use outbound_api.Tracking.Placing.{Tracked, Keeps-Tracked}
use outbound_api.Tracking.Reserve.{restore_account-Rows}

module _ {D : Type 0} ⦃dec : Decimal D⦄ (side : Side) (symbol : String) (env : Env D)
    (cfg : RiskParams D) where
  reconcile-Rows :
      (k : ℕ) (u : TradeUpdate D) (status : Status) (t : Trade D)
      → Keeps (Rows side symbol k (t ∷ [])) (reconcile env cfg u status t)
  unfolding reconcile restore_slot reconciled
  reconcile-Rows k u status t =
      let T = Rows side symbol k (t ∷ []) in
      within_transaction-Keeps T env
        (update_trade env (reconciled cfg u status t) >> restore_slot env status t)
        (bind-Keeps T (update_trade env (reconciled cfg u status t)) _
          (update_trade-Rows side symbol env k [] t (reconciled cfg u status t) refl refl)
          λ _.
            if-Keeps T (is_void status && is_buy t.side) _ _
              (restore_account-Rows side symbol env k (t ∷ []) t.account_transfer_id)
              (pure-Keeps T tt))

  apply_trade_updates-Rows :
      (k : ℕ) (u : TradeUpdate D) (status : Status)
      → Keeps (Rows side symbol k []) (apply_trade_updates env cfg u status)
  unfolding apply_trade_updates apply_to
  apply_trade_updates-Rows k u status w s =
      let T = Rows side symbol k [] in
      Ends-bind (get_by_alpaca_order_id env u.order_id) (apply_to env cfg u status) w
        {P = λ found. Holds λ ts fs.
          T ts fs × (found ≡ find (λ t. same_order t.alpaca_order_id (some u.order_id)) ts)}
        (Ends-weaken _ (get_by_alpaca_order_id_effect env u.order_id w)
          (λ found v (same, e). (SameTables-Holds T w v same s, rw same.0 e))
          (λ v same. SameTables-Holds T w v same s))
        λ found v (s', e). go found v s' e
    where
      go :
          (found : Option (Trade D)) (v : World D)
          → Holds (Rows side symbol k []) v
          → found ≡ find (λ t. same_order t.alpaca_order_id (some u.order_id)) v.trades
          → Ends
              (λ _. Holds (Rows side symbol k []))
              (Holds (Rows side symbol k []))
              (apply_to env cfg u status found v)
      go none v s' e = record { outcome = s' }
      go (some t) v s' e = elim (Bool-cases (is_terminal t.status)) [
        | inl over ↦ rw over (record { outcome = s' })
        | inr live ↦ rw live (
            let row = lookup-find trade_id _ v.trades t s'.unique (sym e) in
            Ends-weaken _
              (reconcile-Rows k u status t v (record {
                unique = s'.unique;
                enough = s'.enough;
                known = (λ r e'. ap (is_row side symbol) (some-injective r t (sym e' ∙ row)), tt);
              }))
              (λ _ x h. forget-Rows side symbol k (t ∷ []) x.trades x.transfers h)
              (λ x h. forget-Rows side symbol k (t ∷ []) x.trades x.transfers h))
      ]

  pub apply_trade_updates-Tracked :
      (u : TradeUpdate D) (status : Status) (w : World D)
      → Tracked side symbol 0 [] w
      → Ends
          (λ _. Tracked side symbol 0 [])
          (Tracked side symbol 0 [])
          (apply_trade_updates env cfg u status w)
  apply_trade_updates-Tracked u status w h =
      Keeps-Tracked side symbol (apply_trade_updates env cfg u status) 0 [] w
        (apply_trade_updates-PlacesNone env cfg u status) (λ k. apply_trade_updates-Rows k u status)
        h
