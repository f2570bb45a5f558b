-- ===== src/Service/Trade/Exits/Answers.antt =====
-- The orders of `EvaluateAndExecuteExits`, and what the broker answers to them.
use outbound_api.Prelude.{
  ℕ, ◌+◌, ◌*◌, ◌≡◌, refl, sym, ap, ◌∙◌, true, false, none, some, String, List, [], ◌∷◌, arith,
  length, Option-cases, Bool-cases, inl, inr, if◌then◌else◌,
}
use outbound_api.Decimal.{Decimal}
use outbound_api.Model.{Trade}
use outbound_api.Repository.Store.{
  Env, World, Result, ok, err, panicked, OrderRequest, place_order, within_transaction,
}
use outbound_api.Repository.Outcome.{Ends, Ends-weaken, Ends-bind, Ends-within_transaction}
use outbound_api.Repository.Trades.{update_trade, delete_trade}
use outbound_api.Repository.Signals.{delete_signal, mark_executed}
use outbound_api.Repository.Orders.{within_transaction-PlacesNone}
use outbound_api.Repository.Orders.Calls.{Ends-orders}
use outbound_api.Service.Trade.Sell.{sell_request}
use outbound_api.Service.Trade.Exits.{
  ExitPair, settle_exit, abandon_exit, place_exit, place_exits, exit_transaction,
  evaluate_and_execute_exits,
}
use outbound_api.Service.Trade.Exits.NoOrders.{exit_transaction-PlacesNone}
use outbound_api.Repository.Orders.Logged.{
  is_panic, no_panic-handled, both_logged, update_trade-Calls, delete_trade-Calls,
  delete_signal-Calls, mark_executed-Calls,
}
use outbound_api.Service.Trade.Exits.Due.{due, requests, open_buys, exit_transaction-due}

module _ {D : Type 0} (env : Env D) where
  -- The orders after the broker has got a request at a call: it is placed if the broker accepts it, and
  -- if the broker keeps it although it answers with an error.
  unfoldable pub sent : ℕ → OrderRequest D → List (OrderRequest D) → List (OrderRequest D)
  sent n r o = elim (env.place_order n) [
    | none ↦ if env.is_kept n then r ∷ o else o
    | some id ↦ r ∷ o
  ]

  pub sent_kept :
      (n : ℕ) (r : OrderRequest D) (o : List (OrderRequest D))
      → env.place_order n ≡ none
      → env.is_kept n ≡ true
      → sent n r o ≡ r ∷ o
  unfolding sent
  sent_kept n r o fails kept = rw (sent, fails, kept) refl

  sent_refused :
      (n : ℕ) (r : OrderRequest D) (o : List (OrderRequest D))
      → env.place_order n ≡ none
      → env.is_kept n ≡ false
      → sent n r o ≡ o
  unfolding sent
  sent_refused n r o fails gone = rw (sent, fails, gone) refl

  pub sent_accepted :
      (n : ℕ) (id : String) (r : OrderRequest D) (o : List (OrderRequest D))
      → env.place_order n ≡ some id
      → sent n r o ≡ r ∷ o
  unfolding sent
  sent_accepted n id r o accepts = rw (sent, accepts) refl

  -- The orders after every request was sent once, each three calls after the one before it.
  abbrev pub answered : ℕ → List (OrderRequest D) → List (OrderRequest D) → List (OrderRequest D)
  answered n [] o = o
  answered n (r ∷ rs) o = answered (n + 3) rs (sent n r o)

module _ {D : Type 0} where
  -- The world in which a call ends is that of its run.
  Ends-same :
      {A : Type 0} {P : A → World D → Type 0} {E : World D → Type 0} (x : Result A × World D)
      → Ends P E x
      → Ends (λ a v. P a v × (v ≡ x.1)) E x
  Ends-same (ok a, v) h = record { outcome = (h.outcome, refl) }
  Ends-same (err e, v) h = record { outcome = h.outcome }
  Ends-same (panicked, v) h = record { outcome = h.outcome }

module _ {D : Type 0} ⦃dec : Decimal D⦄ (env : Env D) where
  -- One call that has sent the request.
  abbrev Sends : OrderRequest D → World D → World D → Type 0
  Sends r w v = (v.orders ≡ sent env w.tick r w.orders) × (v.tick ≡ w.tick + 1)

  place_order-Sends :
      (r : OrderRequest D) (w : World D) → Ends (λ _. Sends r w) (Sends r w) (place_order env r w)
  unfolding place_order
  place_order-Sends r w = elim (Option-cases (env.place_order w.tick)) [
    | inl fails ↦ elim (Bool-cases (env.is_kept w.tick)) [
      | inl kept ↦
          rw (fails, kept, place_order)
            (record { outcome = (sym (sent_kept env w.tick r w.orders fails kept), refl) })
      | inr refused ↦
          rw (fails, refused, place_order)
            (record { outcome = (sym (sent_refused env w.tick r w.orders fails refused), refl) })
    ]
    | inr (id, accepts) ↦
        rw (accepts, place_order)
          (record { outcome = (sym (sent_accepted env w.tick id r w.orders accepts), refl) })
  ]

  pub place_order-is_panic :
      (r : OrderRequest D) (w : World D) → is_panic (place_order env r w).0 ≡ false
  unfolding place_order
  place_order-is_panic r w = ground arith

  pub place_exit-sent :
      (p : ExitPair D) (w : World D)
      → Ends
          (λ _ v.
            (v.orders ≡ sent env w.tick (sell_request p.signal p.sell_trade) w.orders)
            × (v.tick ≡ w.tick + 3))
          (λ _. ⊥)
          (place_exit env p w)
  unfolding place_exit settle_exit abandon_exit
  place_exit-sent p w =
      let r = sell_request p.signal p.sell_trade in
      no_panic-handled (place_order env r) (settle_exit env p) (abandon_exit env p) w
        (place_order-Sends r w) (place_order-is_panic r w)
        (λ id v (orders, one).
          let sold : Trade D = record (p.sell_trade) { alpaca_order_id = some id } in
          Ends-weaken _
            (both_logged (update_trade env sold) (mark_executed env p.signal.id) v
              (update_trade-Calls env sold) (mark_executed-Calls env p.signal.id))
            (λ _ u (same, two). (same ∙ orders, omega arith)) (λ _ x. x))
        (λ e v (orders, one).
          Ends-weaken _
            (both_logged (delete_trade env p.sell_trade.id) (delete_signal env p.signal.id) v
              (delete_trade-Calls env p.sell_trade.id) (delete_signal-Calls env p.signal.id))
            (λ _ u (same, two). (same ∙ orders, omega arith)) (λ _ x. x))

  pub place_exits-answered :
      (ps : List (ExitPair D)) (w : World D)
      → Ends
          (λ _ v.
            (v.orders ≡ answered env w.tick (requests ps) w.orders)
            × (v.tick ≡ w.tick + 3 * length (requests ps)))
          (λ _. ⊥)
          (place_exits env ps w)
  unfolding place_exits
  place_exits-answered [] w = record { outcome = (refl, omega arith) }
  place_exits-answered (p ∷ ps) w =
      Ends-bind (place_exit env p) (λ _. place_exits env ps) w (place_exit-sent p w)
        λ _ v (one, three).
          Ends-weaken (place_exits env ps v) (place_exits-answered ps v)
            (λ _ u (orders, calls). (
              orders
                  ∙ ap (λ n. answered env n (requests ps) v.orders) three
                  ∙ ap (answered env (w.tick + 3) (requests ps)) one,
              omega arith,
            ))
            (λ _ x. x)

  -- `EvaluateAndExecuteExits` sends the broker one sell order for the quantity of each held and
  -- unlocked buy of the symbol whose stop-loss or take-profit the price has reached, in the order of
  -- the table, and no other. When it returns, every one was sent, three calls apart from the end of
  -- the transaction on, and the orders placed are those that the broker has accepted then or has kept
  -- although it answered with an error. When it fails, it has placed no order, and the trades and the
  -- transfers are unchanged.
  pub evaluate_and_execute_exits-answered :
      (symbol : String) (price : D) (w : World D)
      → let first = (within_transaction env (exit_transaction env symbol price) w).1.tick in
        let rs = due price (open_buys env symbol w) in
        Ends
          (λ _ v. (v.orders ≡ answered env first rs w.orders) × (v.tick ≡ first + 3 * length rs))
          (λ v. (v.orders ≡ w.orders) × (v.trades ≡ w.trades) × (v.transfers ≡ w.transfers))
          (evaluate_and_execute_exits env symbol price w)
  unfolding evaluate_and_execute_exits
  evaluate_and_execute_exits-answered symbol price w =
      let body = within_transaction env (exit_transaction env symbol price) in
      let rs = due price (open_buys env symbol w) in
      Ends-bind body (place_exits env) w
        {P = λ ps v. ((requests ps ≡ rs) × (v.orders ≡ w.orders)) × (v ≡ (body w).1)}
        (Ends-same (body w) (
          Ends-weaken _
            (Ends-orders body w _ _
              (within_transaction-PlacesNone env _ (exit_transaction-PlacesNone env symbol price))
              (Ends-within_transaction env (λ ts fs. (ts ≡ w.trades) × (fs ≡ w.transfers))
                (λ ps ts fs. requests ps ≡ rs) (exit_transaction env symbol price) w (refl, refl)
                (Ends-weaken _ (exit_transaction-due env symbol price w) (λ _ _ e. e) (λ _ _. tt))))
            (λ ps v (e, same). (e, same)) (λ v (kept, same). (same, kept.0, kept.1))))
        λ ps v ((e, same), here).
          Ends-weaken (place_exits env ps v) (place_exits-answered ps v)
            (λ _ u (orders, calls). (
              orders
                  ∙ ap (λ (x : World D). answered env x.tick (requests ps) v.orders) here
                  ∙ ap (answered env (body w).1.tick (requests ps)) same
                  ∙ ap (λ l. answered env (body w).1.tick l w.orders) e,
              calls
                  ∙ ap (λ (x : World D). x.tick + 3 * length (requests ps)) here
                  ∙ ap (λ l. (body w).1.tick + 3 * length l) e,
            ))
            (λ _ x. absurd x)
