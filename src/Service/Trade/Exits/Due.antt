-- ===== src/Service/Trade/Exits/Due.antt =====
-- The exits that the transaction of `EvaluateAndExecuteExits` collects.
use outbound_api.Prelude.{
  ℕ, ◌+◌, ◌≡◌, refl, ap, ◌∙◌, Bool, true, false, not, ◌||◌, ◌&&◌, none, some, String, List, [], ◌∷◌,
  arith, Bool-cases, Option-cases, inl, inr, filter, map,
}
use outbound_api.Decimal.{Decimal}
use outbound_api.Model.{Side, Trade, Signal}
use outbound_api.Repository.Store.{
  Env, World, M, OrderRequest, Result, ok, err, panicked, next_tick, ◌>>=◌, new_uuid, time_now,
  pure,
}
use outbound_api.Repository.Outcome.{Ends, Ends-weaken, Ends-bind}
use outbound_api.Repository.Trades.{is_open_buy, create_trade, get_open_buy_trades_by_symbol}
use outbound_api.Repository.Signals.{create_signal}
use outbound_api.Service.Trade.Sell.{sell_trade_of, sell_request}
use outbound_api.Service.Trade.Exits.{
  ExitPair, at_stop, at_target, exit_reason, exit_signal, insert_exit, create_exit, open_exit,
  add_exit, collect_exits, exit_transaction,
}

module _ {D : Type 0} ⦃dec : Decimal D⦄ where
  -- The price has reached the stop-loss or the take-profit.
  abbrev pub reaches : D → Trade D → Bool
  reaches price t = at_stop price t.stop_loss || at_target price t.take_profit

  -- The order that sells a trade.
  abbrev pub order_of : Trade D → OrderRequest D
  order_of t = record { symbol = t.symbol; qty = t.quantity; side = Side.sell }

  -- One order for each trade whose stop-loss or take-profit is reached.
  abbrev pub due : D → List (Trade D) → List (OrderRequest D)
  due price ts = map order_of (filter (reaches price) ts)

abbrev pub requests : {D : Type 0} → List (ExitPair D) → List (OrderRequest D)
requests [] = []
requests (p ∷ ps) = sell_request p.signal p.sell_trade ∷ requests ps

module _ {D : Type 0} (env : Env D) where
  -- The held buys of the symbol that no other transaction has locked, as the exits read them.
  abbrev pub open_buys : String → World D → List (Trade D)
  open_buys symbol w =
      filter (λ t. is_open_buy w.trades symbol t && not (env.is_locked (w.tick + 1 + 1) t.id))
        w.trades

module _ {D : Type 0} where
  -- Nothing is known of how it ends.
  ends : {A : Type 0} (x : Result A × World D) → Ends (λ _ _. Unit {0}) (λ _. Unit {0}) x
  ends (ok a, v) = record { outcome = tt }
  ends (err e, v) = record { outcome = tt }
  ends (panicked, v) = record { outcome = tt }

module _ {D : Type 0} ⦃dec : Decimal D⦄ (env : Env D) where
  open_exit-order_of :
      (price : D) (reason : String) (t : Trade D) (w : World D)
      → Ends
          (λ p _. sell_request p.signal p.sell_trade ≡ order_of t)
          (λ _. Unit)
          (open_exit env price reason t w)
  unfolding open_exit create_exit insert_exit
  open_exit-order_of price reason t w =
      Ends-bind (new_uuid env) (λ id. time_now env >>= made id) w (ends (new_uuid env w))
        λ id v _. Ends-bind (time_now env) (made id) v (ends (time_now env v)) λ at u _.
          let signal : Signal D = exit_signal id price reason t at in
          Ends-bind (create_signal env signal) (λ _. new_uuid env >>= fresh signal) u
            (ends (create_signal env signal u))
            λ _ x _. Ends-bind (new_uuid env) (fresh signal) x (ends (new_uuid env x)) λ sell y _.
              Ends-bind (create_trade env (pair signal sell).sell_trade)
                (λ _. pure (pair signal sell)) y
                (ends (create_trade env (pair signal sell).sell_trade y))
                λ _ z _. record { outcome = refl }
    where
      pair : Signal D → ℕ → ExitPair D
      pair signal id = record { signal = signal; sell_trade = sell_trade_of id t signal price }

      fresh : Signal D → ℕ → M D (ExitPair D)
      fresh signal id = insert_exit env (pair signal id)

      made : ℕ → ℕ → M D (ExitPair D)
      made id at = create_exit env t price (exit_signal id price reason t at)

  exit_reason-reaches :
      (price : D) (t : Trade D) (reason : String)
      → exit_reason price t ≡ some reason
      → reaches price t ≡ true
  unfolding exit_reason
  exit_reason-reaches price t reason e = ground arith

  no_reason : (price : D) (t : Trade D) → exit_reason price t ≡ none → reaches price t ≡ false
  unfolding exit_reason
  no_reason price t e = ground arith

  pub collect_exits-due :
      (price : D) (ts : List (Trade D)) (w : World D)
      → Ends (λ ps _. requests ps ≡ due price ts) (λ _. Unit) (collect_exits env price ts w)
  unfolding collect_exits
  collect_exits-due price [] w = record { outcome = refl }
  collect_exits-due price (t ∷ ts) w = elim (Option-cases (exit_reason price t)) [
    | inl holds ↦ rw (holds, no_reason price t holds) (collect_exits-due price ts w)
    | inr (reason, exits) ↦
        rw (exits, exit_reason-reaches price t reason exits)
          (Ends-bind (open_exit env price reason t) (add_exit env (collect_exits env price ts)) w
            (open_exit-order_of price reason t w)
            λ p v one.
              Ends-bind (collect_exits env price ts) (λ rest. pure (p ∷ rest)) v
                (collect_exits-due price ts v)
                λ ps u rest. record { outcome = rw (one, rest) refl })
  ]

  open_buys_effect :
      (symbol : String) (v : World D)
      → Ends
          (λ ts _.
            ts
            ≡ filter
                (λ t. is_open_buy v.trades symbol t && not (env.is_locked (v.tick + 1) t.id))
                v.trades)
          (λ _. Unit)
          (get_open_buy_trades_by_symbol env symbol v)
  unfolding get_open_buy_trades_by_symbol
  open_buys_effect symbol v = elim (Bool-cases (env.db_fails v.tick)) [
    | inl bad ↦ rw bad (record { outcome = tt })
    | inr good ↦ rw good (record { outcome = refl })
  ]

  -- The transaction collects the open buys that are due.
  pub exit_transaction-due :
      (symbol : String) (price : D) (w : World D)
      → Ends
          (λ ps _. requests ps ≡ due price (open_buys env symbol w))
          (λ _. Unit)
          (exit_transaction env symbol price (next_tick w))
  unfolding exit_transaction
  exit_transaction-due symbol price w =
      Ends-bind (get_open_buy_trades_by_symbol env symbol) (collect_exits env price) (next_tick w)
        (open_buys_effect symbol (next_tick w))
        λ ts v e.
          Ends-weaken _ (collect_exits-due price ts v) (λ _ _ e'. e' ∙ ap (due price) e) (λ _ _. tt)
