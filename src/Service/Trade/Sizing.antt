-- ===== src/Service/Trade/Sizing.antt =====
-- The position sizing of `ExecuteBuyTrade` (internal/service/trade_service.go). A division by zero
-- is a panic of the decimals, `none` here.
pub mod Cap
use outbound_api.Prelude.{not, ◌&&◌, Option, none, some, if◌then◌else◌}
use outbound_api.Decimal.{Decimal, div}
use outbound_api.Model.{Signal, AccountTransfer}

-- The decimals of `tradeService`.
pub record RiskParams (D : Type 0) : Type 0 where
  pub risk_per_trade_pct : D
  pub atr_risk_multiplier : D
  pub take_profit_multiplier : D
  pub commission_fee_pct : D
  pub fx_fee_pct : D

infixl 5 ◌>>=◌
abbrev ◌>>=◌ : {A B : Type 0} → Option A → (A → Option B) → Option B
none >>= f = none
some a >>= f = f a

module _ {D : Type 0} ⦃dec : Decimal D⦄ where
  -- The equal share of one slot in shares of stock.
  unfoldable pub slot_quantity : Signal D → AccountTransfer D → Option D
  slot_quantity signal account = do
    per_trade ← div account.amount_usd (dec.from_int account.target_trades)
    div per_trade signal.price_at_signal

  unfoldable pub size_position : RiskParams D → Signal D → AccountTransfer D → Option D
  size_position cfg signal account =
      let risk_amount = dec.mul account.amount_usd cfg.risk_per_trade_pct in
      let stop_distance = dec.mul signal.indicators.atr cfg.atr_risk_multiplier in
      if not (dec.is_zero stop_distance) && dec.gt signal.price_at_signal dec.naught
      then (do
        quantity ← div risk_amount stop_distance
        max_quantity ← slot_quantity signal account
        some (if dec.gt quantity max_quantity then max_quantity else quantity))
      else slot_quantity signal account

  -- Stop-loss and take-profit.
  unfoldable pub levels : RiskParams D → D → D → D × D
  levels cfg price atr = (
    dec.sub price (dec.mul atr cfg.atr_risk_multiplier),
    dec.add price (dec.mul atr cfg.take_profit_multiplier),
  )
