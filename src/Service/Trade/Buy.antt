-- ===== src/Service/Trade/Buy.antt =====
-- `ExecuteBuyTrade` and `cancelTradeAndRestoreSlot` of internal/service/trade_service.go, a function
-- for each part that ends in a call which may fail.
use outbound_api.Prelude.{ℕ, Bool, true, false, Option, none, some, String, [], ◌∷◌, if◌then◌else◌}
use outbound_api.Decimal.{Decimal}
use outbound_api.Model.{Trade, Signal, AccountTransfer, Side, Status}
use outbound_api.Repository.Store.{
  handled, Env, OrderRequest, M, Error, no_remaining_slots, position_already_open, nil_account,
  ◌>>=◌, ◌>>◌, pure, throw, panic, best_effort, within_transaction, place_order, new_uuid,
}
use outbound_api.Repository.Trades.{create_trade, update_trade, has_open_position}
use outbound_api.Repository.Transfers.{
  has_slot, decrement_remaining_trades, increment_remaining_trades,
}
use outbound_api.Repository.Signals.{mark_executed}
use outbound_api.Service.Trade.Sizing.{RiskParams, size_position, levels}

module _ {D : Type 0} where
  abbrev pub buy_request : Signal D → Trade D → OrderRequest D
  buy_request signal trade = record {
    symbol = signal.symbol;
    qty = trade.quantity;
    side = Side.buy;
  }

module _ {D : Type 0} (env : Env D) where
  -- The slot of a trade that has a transfer is given back.
  abbrev pub restore_account : Option ℕ → M D (Unit {0})
  restore_account none = pure tt
  restore_account (some a) = increment_remaining_trades env a

  -- The body of the buy's transaction: check the position, insert the trade, take a slot.
  unfoldable pub insert_buy : Trade D → ℕ → Bool → M D (Unit {0})
  insert_buy trade account_id true = throw position_already_open
  insert_buy trade account_id false =
      create_trade env trade >> decrement_remaining_trades env account_id

  unfoldable pub reserve_buy : Trade D → ℕ → M D (Unit {0})
  reserve_buy trade account_id = do
    has_position ← has_open_position env trade.symbol
    insert_buy trade account_id has_position

  unfoldable pub cancel_buy : Trade D → M D (Unit {0})
  cancel_buy trade =
      update_trade env (record trade { status = Status.cancelled })
      >> restore_account trade.account_transfer_id

  unfoldable pub cancel_trade_and_restore_slot : Trade D → M D (Unit {0})
  cancel_trade_and_restore_slot trade = best_effort (within_transaction env (cancel_buy trade))

  -- After an accepted order: its id and the signal's flag are stored as well as can be.
  unfoldable pub settle_buy : Trade D → Signal D → String → M D (Option (Trade D))
  settle_buy trade signal order = do
    best_effort (update_trade env (record trade { alpaca_order_id = some order }))
    best_effort (mark_executed env signal.id)
    pure (some (record trade { alpaca_order_id = some order }))

  -- After an error of `PlaceOrder`.
  unfoldable pub abandon_buy : Trade D → Error → M D (Option (Trade D))
  abandon_buy trade e = cancel_trade_and_restore_slot trade >> throw e

  unfoldable pub place_buy : Trade D → Signal D → M D (Option (Trade D))
  place_buy trade signal =
      handled (place_order env (buy_request signal trade)) (settle_buy trade signal)
        (abandon_buy trade)

  -- ErrNoRemainingSlots and ErrPositionAlreadyOpen mean "nothing to do".
  unfoldable pub buy_refused : Error → M D (Option (Trade D))
  buy_refused no_remaining_slots = pure none
  buy_refused position_already_open = pure none
  buy_refused e = throw e

  -- From the built trade on.
  unfoldable pub commit_buy : Signal D → AccountTransfer D → Trade D → M D (Option (Trade D))
  commit_buy signal account trade =
      handled (within_transaction env (reserve_buy trade account.id)) (λ _. place_buy trade signal)
        buy_refused

module _ {D : Type 0} ⦃dec : Decimal D⦄ (cfg : RiskParams D) where
  -- The trade that a buy signal would open.
  unfoldable pub buy_trade : ℕ → Signal D → AccountTransfer D → D → Trade D
  unfolding levels
  buy_trade id signal account quantity =
      let price = signal.price_at_signal in
      let atr = signal.indicators.atr in
      let (stop, target) = levels cfg price atr in
      record {
        id = id;
        parent_id = none;
        signal_id = some signal.id;
        account_transfer_id = some account.id;
        alpaca_order_id = none;
        symbol = signal.symbol;
        side = Side.buy;
        quantity = quantity;
        price_per_unit = some price;
        avg_fill_price = none;
        commission_fee = none;
        fx_fee_amortized = none;
        stop_loss = some stop;
        take_profit = some target;
        peak_price = some price;
        entry_atr = some atr;
        status = Status.pending;
        metadata =
            ("risk_amount", dec.mul account.amount_usd cfg.risk_per_trade_pct)
            ∷ ("atr_stop_distance", dec.mul atr cfg.atr_risk_multiplier)
            ∷ ("risk_per_trade_pct", cfg.risk_per_trade_pct)
            ∷ ("atr_risk_multiplier", cfg.atr_risk_multiplier)
            ∷ ("take_profit_multiplier", cfg.take_profit_multiplier)
            ∷ [];
        filled_at = none;
        created_at = signal.created_at;
      }

module _ {D : Type 0} ⦃dec : Decimal D⦄ (env : Env D) (cfg : RiskParams D) where
  -- From the sized quantity on.
  unfoldable pub open_buy : Signal D → AccountTransfer D → D → M D (Option (Trade D))
  open_buy signal account quantity = do
    id ← new_uuid env
    commit_buy env signal account (buy_trade cfg id signal account quantity)

  unfoldable pub execute_buy_trade : Signal D → Option (AccountTransfer D) → M D (Option (Trade D))
  execute_buy_trade signal none = throw nil_account
  execute_buy_trade signal (some account) =
      if has_slot account.remaining_trades
      then elim (size_position cfg signal account) [
        | none ↦ panic
        | some quantity ↦
            if dec.le quantity dec.naught then pure none else open_buy signal account quantity
      ]
      else pure none
