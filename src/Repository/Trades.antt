-- ===== src/Repository/Trades.antt =====
-- internal/repository/trade_repository.go over the table `trades`, whose constraints are those of
-- migrations/. A list of rows has the rows of a SELECT in some order.
use mathlib.Core.Option
use outbound_api.Prelude.{
  ℕ, Bool, true, false, not, ◌&&◌, ◌||◌, Option, none, some, String, List, [], ◌∷◌, ◌++◌, ◌==◌,
  if◌then◌else◌, any, find, filter, is_some_of, str_eq,
}
use outbound_api.Prelude.Table.{has_key, update, erase}
use outbound_api.Model.{Trade, is_buy, is_sell, is_active, is_held}
use outbound_api.Repository.Store.{
  Env, World, M, Error, ok, err, unique_violation, foreign_key_violation, query,
}

abbrev pub same_order : Option String → Option String → Bool
same_order (some a) (some b) = str_eq a b
same_order _ _ = false

abbrev pub same_parent : Option ℕ → Option ℕ → Bool
same_parent (some a) (some b) = a == b
same_parent _ _ = false

-- A reference that may be NULL.
abbrev pub may_refer : {R : Type 0} → (R → ℕ) → List R → Option ℕ → Bool
may_refer key rows none = true
may_refer key rows (some k) = has_key key k rows

-- A reference that is NOT NULL.
abbrev pub must_refer : {R : Type 0} → (R → ℕ) → List R → Option ℕ → Bool
must_refer key rows none = false
must_refer key rows (some k) = has_key key k rows

module _ {D : Type 0} where
  -- EXISTS (SELECT 1 FROM trades sell WHERE sell.side = 'sell' AND sell.parent_id = id)
  unfoldable pub has_sell_child : List (Trade D) → ℕ → Bool
  has_sell_child trades id = any (λ s. is_sell s.side && is_some_of id s.parent_id) trades

  -- The rows that `hasOpenPositionQuery` looks for.
  unfoldable pub is_open_position : List (Trade D) → String → Trade D → Bool
  is_open_position trades symbol t =
      str_eq t.symbol symbol
      && is_buy t.side
      && is_active t.status
      && not (has_sell_child trades t.id)

  -- The rows that `getOpenBuyTradesBySymbolQuery` selects.
  unfoldable pub is_open_buy : List (Trade D) → String → Trade D → Bool
  is_open_buy trades symbol t =
      str_eq t.symbol symbol
      && is_buy t.side
      && is_held t.status
      && not (has_sell_child trades t.id)

  -- The constraints of the table on a row, beside the primary key: alpaca_order_id is UNIQUE, a buy
  -- has one sell (trades_one_sell_per_buy), and the references exist.
  unfoldable pub trade_refusal : World D → Trade D → Option Error
  trade_refusal w t =
      let others = filter (λ r. not (r.id == t.id)) w.trades in
      if any (λ r. same_order r.alpaca_order_id t.alpaca_order_id) others
        || is_sell t.side && any (λ r. is_sell r.side && same_parent r.parent_id t.parent_id) others
      then some unique_violation
      else if may_refer (λ r. r.id) w.trades t.parent_id
          && may_refer (λ r. r.id) w.signals t.signal_id
          && must_refer (λ r. r.id) w.transfers t.account_transfer_id
      then none
      else some foreign_key_violation

  module _ (env : Env D) where
    -- A row as its DECIMAL(19,4) columns hold it.
    abbrev pub stored : Trade D → Trade D
    stored t = record t {
      quantity = env.column t.quantity;
      price_per_unit = Option.map env.column t.price_per_unit;
      avg_fill_price = Option.map env.column t.avg_fill_price;
      commission_fee = Option.map env.column t.commission_fee;
      fx_fee_amortized = Option.map env.column t.fx_fee_amortized;
      stop_loss = Option.map env.column t.stop_loss;
      take_profit = Option.map env.column t.take_profit;
      peak_price = Option.map env.column t.peak_price;
      entry_atr = Option.map env.column t.entry_atr;
    }

    -- UPDATE sets every column but `id` and `created_at`.
    abbrev pub overwrite : Trade D → Trade D → Trade D
    overwrite t r = let new = stored t in record new { id = r.id; created_at = r.created_at }

    unfoldable pub create_trade : Trade D → M D (Unit {0})
    create_trade t = query env λ w.
        if has_key (λ r. r.id) t.id w.trades
        then (err unique_violation, w)
        else elim (trade_refusal w t) [
          | none ↦ (ok tt, record w { trades = w.trades ++ (stored t ∷ []) })
          | some e ↦ (err e, w)
        ]

    unfoldable pub update_trade : Trade D → M D (Unit {0})
    update_trade t = query env λ w.
        if has_key (λ r. r.id) t.id w.trades
        then elim (trade_refusal w t) [
          | none ↦ (ok tt, record w { trades = update (λ r. r.id) t.id (overwrite t) w.trades })
          | some e ↦ (err e, w)
        ]
        else (ok tt, w)

    -- parent_id is ON DELETE RESTRICT, and decisions go with their trade (CASCADE).
    unfoldable pub delete_trade : ℕ → M D (Unit {0})
    delete_trade id = query env λ w.
        if any (λ r. not (r.id == id) && is_some_of id r.parent_id) w.trades
        then (err foreign_key_violation, w)
        else (
          ok tt,
          record w {
            trades = erase (λ r. r.id) id w.trades;
            decisions = filter (λ d. not (d.trade_id == id)) w.decisions;
          },
        )

    unfoldable pub has_open_position : String → M D Bool
    has_open_position symbol =
        query env λ w. (ok (any (is_open_position w.trades symbol) w.trades), w)

    -- FOR UPDATE SKIP LOCKED: rows that another transaction has locked are left out.
    unfoldable pub get_open_buy_trades_by_symbol : String → M D (List (Trade D))
    get_open_buy_trades_by_symbol symbol = query env λ w. (
      ok (filter (λ t. is_open_buy w.trades symbol t && not (env.is_locked w.tick t.id)) w.trades),
      w,
    )

    unfoldable pub get_by_alpaca_order_id : String → M D (Option (Trade D))
    get_by_alpaca_order_id order =
        query env λ w. (ok (find (λ t. same_order t.alpaca_order_id (some order)) w.trades), w)
