-- ===== src/Service/Trade/Sell.antt =====
-- `ExecuteSellTrade` of internal/service/trade_service.go, and the sell that every exit inserts.
use outbound_api.Prelude.{ℕ, none, some, String, [], if◌then◌else◌, is_present}
use outbound_api.Model.{Trade, Signal, Side, Status}
use outbound_api.Repository.Store.{
  handled, Env, OrderRequest, M, Error, no_parent_transfer, ◌>>=◌, ◌>>◌, pure, throw, best_effort,
  place_order, new_uuid,
}
use outbound_api.Repository.Trades.{create_trade, update_trade, delete_trade}

module _ {D : Type 0} where
  abbrev pub sell_trade_of : ℕ → Trade D → Signal D → D → Trade D
  sell_trade_of id parent signal price = record {
    id = id;
    parent_id = some parent.id;
    signal_id = some signal.id;
    account_transfer_id = parent.account_transfer_id;
    alpaca_order_id = none;
    symbol = signal.symbol;
    side = Side.sell;
    quantity = parent.quantity;
    price_per_unit = some price;
    avg_fill_price = none;
    commission_fee = none;
    fx_fee_amortized = none;
    stop_loss = none;
    take_profit = none;
    peak_price = none;
    entry_atr = none;
    status = Status.pending;
    metadata = [];
    filled_at = none;
    created_at = signal.created_at;
  }

  abbrev pub sell_request : Signal D → Trade D → OrderRequest D
  sell_request signal sell = record {
    symbol = signal.symbol;
    qty = sell.quantity;
    side = Side.sell;
  }

module _ {D : Type 0} (env : Env D) where
  -- The order of a manual sell. An error of `PlaceOrder` deletes the sell.
  unfoldable pub settle_sell : Trade D → String → M D (Trade D)
  settle_sell sell order =
      best_effort (update_trade env (record sell { alpaca_order_id = some order }))
      >> pure (record sell { alpaca_order_id = some order })

  unfoldable pub abandon_sell : Trade D → Error → M D (Trade D)
  abandon_sell sell e = best_effort (delete_trade env sell.id) >> throw e

  unfoldable pub place_sell : Signal D → Trade D → M D (Trade D)
  place_sell signal sell =
      handled (place_order env (sell_request signal sell)) (settle_sell sell) (abandon_sell sell)

  unfoldable pub insert_sell : Signal D → Trade D → M D (Trade D)
  insert_sell signal sell = create_trade env sell >> place_sell signal sell

  unfoldable pub execute_sell_trade : Signal D → Trade D → M D (Trade D)
  execute_sell_trade signal parent =
      if is_present parent.account_transfer_id
      then new_uuid env
        >>= (λ id. insert_sell signal (sell_trade_of id parent signal signal.price_at_signal))
      else throw no_parent_transfer
