-- ===== src/Service/Trade/Updates.antt =====
-- `ApplyTradeUpdates` of internal/service/trade_service.go.
pub mod NoOrders
pub mod Replay
use outbound_api.Prelude.{ℕ, ◌&&◌, Option, none, some, String, if◌then◌else◌}
use outbound_api.Decimal.{Decimal}
use outbound_api.Model.{Trade, Status, is_terminal, is_void, is_buy}
use outbound_api.Repository.Store.{Env, M, ◌>>=◌, ◌>>◌, pure, within_transaction}
use outbound_api.Repository.Trades.{update_trade, get_by_alpaca_order_id}
use outbound_api.Service.Trade.Sizing.{RiskParams}
use outbound_api.Service.Trade.Buy.{restore_account}

-- The parts of alpaca.TradeUpdate that the program reads.
pub record TradeUpdate (D : Type 0) : Type 0 where
  pub event : String
  pub order_id : String
  pub filled_at : Option ℕ
  pub filled_avg_price : Option D
  pub filled_qty : D

module _ {D : Type 0} (env : Env D) where
  unfoldable pub restore_slot : Status → Trade D → M D (Unit {0})
  restore_slot status t =
      if is_void status && is_buy t.side then restore_account env t.account_transfer_id else pure tt

module _ {D : Type 0} ⦃dec : Decimal D⦄ where
  -- A fee of an order that is filled at a price; any other update leaves the fee as it is.
  unfoldable pub fee : D → TradeUpdate D → Status → Option D → Option D
  fee pct u Status.filled old = elim u.filled_avg_price [
    | none ↦ old
    | some price ↦ some (dec.mul (dec.mul u.filled_qty price) pct)
  ]
  fee pct u _ old = old

module _ {D : Type 0} ⦃dec : Decimal D⦄ (cfg : RiskParams D) where
  -- The trade with the update's status, fill and fees.
  unfoldable pub reconciled : TradeUpdate D → Status → Trade D → Trade D
  reconciled u status t = record t {
    status = status;
    filled_at = u.filled_at;
    avg_fill_price = u.filled_avg_price;
    commission_fee = fee cfg.commission_fee_pct u status t.commission_fee;
    fx_fee_amortized = fee cfg.fx_fee_pct u status t.fx_fee_amortized;
  }

module _ {D : Type 0} ⦃dec : Decimal D⦄ (env : Env D) (cfg : RiskParams D) where
  unfoldable pub reconcile : TradeUpdate D → Status → Trade D → M D (Unit {0})
  reconcile u status t =
      within_transaction env
        (update_trade env (reconciled cfg u status t) >> restore_slot env status t)

  unfoldable pub apply_to : TradeUpdate D → Status → Option (Trade D) → M D (Unit {0})
  apply_to u status none = pure tt
  apply_to u status (some t) = if is_terminal t.status then pure tt else reconcile u status t

  unfoldable pub apply_trade_updates : TradeUpdate D → Status → M D (Unit {0})
  apply_trade_updates u status = get_by_alpaca_order_id env u.order_id >>= apply_to u status
