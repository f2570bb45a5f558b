-- ===== src/Budget/Updates.antt =====
-- `ApplyTradeUpdates` keeps the budget: a buy that the broker voids gives its slot back, once.
use mathlib.Core.Path.{subst}
use outbound_api.Prelude.{
  ℕ, ◌+◌, ◌-◌, ◌≡◌, false, ◌&&◌, Option, none, some, arith, Bool-cases, inl, inr, sym, is_some_of,
  find,
}
use outbound_api.Prelude.Table.{bit, lookup, lookup-find}
use outbound_api.Decimal.{Decimal}
use outbound_api.Model.{Trade, Status, is_buy, is_terminal, is_void}
use outbound_api.Repository.Store.{Env, World, next_tick, ◌>>◌}
use outbound_api.Repository.Outcome.{Ends, Ends-weaken, Ends-bind, Ends-within_transaction, Holds}
use outbound_api.Repository.Trades.{update_trade, get_by_alpaca_order_id, same_order}
use outbound_api.Repository.Effects.{SameTables-Holds}
use outbound_api.Repository.Reads.{get_by_alpaca_order_id_effect}
use outbound_api.Repository.Alike.{trade_id}
use outbound_api.Budget.Tables.{holds, Sound, bit-le-total}
use outbound_api.Budget.Queries.{update_trade-Sound}
use outbound_api.Budget.Buy.{restore_account-Sound}
use outbound_api.Service.Trade.Sizing.{RiskParams}
use outbound_api.Service.Trade.Updates.{
  TradeUpdate, reconciled, restore_slot, reconcile, apply_to, apply_trade_updates,
}

-- The slot that the new status of a trade gives back.
abbrev freed : {D : Type 0} → ℕ → Status → Trade D → ℕ
freed a status t = bit (is_void status && is_buy t.side && is_some_of a t.account_transfer_id)

module _ {D : Type 0} (env : Env D) (a total : ℕ) where
  restore_slot-Sound :
      (status : Status) (t : Trade D) (w : World D)
      → Holds (Sound a total) w
      → Ends
          (λ _. Holds (Sound a (total + freed a status t)))
          (λ _. Unit)
          (restore_slot env status t w)
  unfolding restore_slot
  restore_slot-Sound status t w s = elim (Bool-cases (is_void status && is_buy t.side)) [
    | inl frees ↦ rw frees (
        Ends-weaken _ (restore_account-Sound env a total t.account_transfer_id w s)
          (λ _ v h. subst (λ k. Holds (Sound a k) v) (ground arith) h) (λ _ _. tt))
    | inr keeps ↦ rw keeps (record { outcome = subst (λ k. Holds (Sound a k) w) (ground arith) s })
  ]

-- Reconciling changes neither the side nor the transfer of a trade.
holds-reconciled :
    {D : Type 0} ⦃dec : Decimal D⦄ (cfg : RiskParams D) (a : ℕ) (u : TradeUpdate D)
    (status : Status) (t : Trade D)
    → is_terminal t.status ≡ false
    → bit (holds a (reconciled cfg u status t)) + freed a status t ≡ bit (holds a t)
unfolding reconciled
holds-reconciled cfg a u status t live = ground arith

module _ {D : Type 0} ⦃dec : Decimal D⦄ (env : Env D) (cfg : RiskParams D) (a total : ℕ) where
  reconcile-Sound :
      (u : TradeUpdate D) (status : Status) (t : Trade D) (w : World D)
      → is_terminal t.status ≡ false
      → Holds (Sound a total) w
      → lookup trade_id t.id w.trades ≡ some t
      → Ends (λ _. Holds (Sound a total)) (Holds (Sound a total)) (reconcile env cfg u status t w)
  unfolding reconcile reconciled
  reconcile-Sound u status t w live s row =
      let moved = holds-reconciled cfg a u status t live in
      let fits = bit-le-total a total t.id w.trades w.transfers t s row in
      let rest : ℕ = total - freed a status t in
      Ends-within_transaction env (Sound a total) (λ _. Sound a total)
        (update_trade env (reconciled cfg u status t) >> restore_slot env status t) w s
        (Ends-bind (update_trade env (reconciled cfg u status t)) (λ _. restore_slot env status t)
          (next_tick w)
          (Ends-weaken _
            (update_trade-Sound env a total (next_tick w) (reconciled cfg u status t) t rest s row
              (omega arith))
            (λ _ _ h. h) (λ _ _. tt))
          λ _ v s'.
            Ends-weaken _ (restore_slot-Sound env a rest status t v s')
              (λ _ x h. subst (λ k. Holds (Sound a k) x) (omega arith) h) (λ _ _. tt))

  pub apply_trade_updates-Sound :
      (u : TradeUpdate D) (status : Status) (w : World D)
      → Holds (Sound a total) w
      → Ends
          (λ _. Holds (Sound a total))
          (Holds (Sound a total))
          (apply_trade_updates env cfg u status w)
  unfolding apply_trade_updates apply_to
  apply_trade_updates-Sound u status w s =
      Ends-bind (get_by_alpaca_order_id env u.order_id) (apply_to env cfg u status) w
        {P = λ found. Holds λ ts fs.
          Sound a total ts fs
          × (found ≡ find (λ t. same_order t.alpaca_order_id (some u.order_id)) ts)}
        (Ends-weaken _ (get_by_alpaca_order_id_effect env u.order_id w)
          (λ found v (same, e). (SameTables-Holds (Sound a total) w v same s, rw same.0 e))
          (λ v same. SameTables-Holds (Sound a total) w v same s))
        λ found v (s', e). go found v s' e
    where
      go :
          (found : Option (Trade D)) (v : World D)
          → Holds (Sound a total) v
          → found ≡ find (λ t. same_order t.alpaca_order_id (some u.order_id)) v.trades
          → Ends
              (λ _. Holds (Sound a total))
              (Holds (Sound a total))
              (apply_to env cfg u status found v)
      go none v s' e = record { outcome = s' }
      go (some t) v s' e = elim (Bool-cases (is_terminal t.status)) [
        | inl over ↦ rw over (record { outcome = s' })
        | inr live ↦ rw live (
            reconcile-Sound u status t v live s'
              (lookup-find trade_id _ v.trades t s'.unique_trades (sym e)))
      ]
