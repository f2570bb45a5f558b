-- ===== src/Position/Exits.antt =====
-- `EvaluateAndExecuteExits` opens no position: a sell is taken away when `PlaceOrder` returns an
-- error, and its buy has counted all the time.
use outbound_api.Prelude.{ℕ, ◌≡◌, refl, some, Option, String, List, [], ◌∷◌, none}
use outbound_api.Decimal.{Decimal}
use outbound_api.Model.{Trade}
use outbound_api.Repository.Store.{
  Env, World, next_tick, place_order, best_effort, within_transaction,
}
use outbound_api.Repository.Outcome.{
  Ends, Ends-weaken, Ends-bind, Ends-best_effort, Ends-handled, Ends-within_transaction, Holds,
  Tables,
}
use outbound_api.Repository.Trades.{update_trade, delete_trade}
use outbound_api.Repository.Signals.{delete_signal, mark_executed}
use outbound_api.Repository.Reads.{place_order-Reads, delete_signal-Reads, mark_executed-Reads}
use outbound_api.Repository.Keeps.{Keeps, bind-Keeps, best_effort-Keeps, Reads-Keeps}
use outbound_api.Service.Trade.Sell.{sell_request}
use outbound_api.Service.Trade.Exits.{
  ExitPair, settle_exit, abandon_exit, place_exit, place_exits, exit_transaction,
  evaluate_and_execute_exits,
}
use outbound_api.Tracking.Collect.{sells}
use outbound_api.Position.Tables.{view, Single, settled-Single}
use outbound_api.Position.Writes.{delete_sell-Single, update_same-Single}
use outbound_api.Position.Collect.{ids, exit_transaction-Collected}

module _ {D : Type 0} ⦃dec : Decimal D⦄ (symbol : String) (env : Env D) where
  settle_exit-Single :
      (p : ExitPair D) (ks : List ℕ) (l : List (Trade D)) (order : String)
      → Keeps (Single symbol ks (p.sell_trade ∷ l)) (settle_exit env p order)
  unfolding settle_exit
  settle_exit-Single p ks l order =
      let T : Tables D = Single symbol ks (p.sell_trade ∷ l) in
      let sold : Trade D = record (p.sell_trade) { alpaca_order_id = some order } in
      bind-Keeps T (best_effort (update_trade env sold))
        (λ _. best_effort (mark_executed env p.signal.id))
        (best_effort-Keeps T _ (update_same-Single symbol env p.sell_trade sold ks l refl same))
        λ _. best_effort-Keeps T _ (Reads-Keeps T env _ (mark_executed-Reads env p.signal.id))
    where
      same :
          (v : Option ℕ)
          → view symbol v (record (p.sell_trade) { alpaca_order_id = some order })
            ≡ view symbol v p.sell_trade
      same none = refl
      same (some id) = refl

  place_exit-Single :
      (p : ExitPair D) (ks : List ℕ) (l : List (Trade D)) (w : World D)
      → Holds (Single symbol (p.sell_trade.id ∷ ks) (p.sell_trade ∷ l)) w
      → Ends (λ _. Holds (Single symbol ks l)) (Holds (Single symbol ks l)) (place_exit env p w)
  unfolding place_exit abandon_exit
  place_exit-Single p ks l w h =
      let s : Trade D = p.sell_trade in
      let T : Tables D = Single symbol ks l in
      let over : (v : World D) → Holds (Single symbol (s.id ∷ ks) (s ∷ l)) v → Holds T v =
        λ v h'. settled-Single symbol s.id ks s l v.trades v.transfers h' in
      Ends-handled (place_order env (sell_request p.signal s)) (settle_exit env p)
        (abandon_exit env p) w
        (Reads-Keeps (Single symbol (s.id ∷ ks) (s ∷ l)) env _
          (place_order-Reads env (sell_request p.signal s)) w h)
        (λ order v h'.
          Ends-weaken _ (settle_exit-Single p (s.id ∷ ks) l order v h') (λ _ u x. over u x)
            (λ u x. over u x))
        (λ e v h'.
          Ends-bind (best_effort (delete_trade env s.id))
            (λ _. best_effort (delete_signal env p.signal.id)) v
            (Ends-best_effort (delete_trade env s.id) v (Holds T) (
              Ends-weaken _ (delete_sell-Single symbol env s ks l v h') (λ _ _ x. x)
                (λ u x. over u x)))
            λ _ u x.
              best_effort-Keeps T _ (Reads-Keeps T env _ (delete_signal-Reads env p.signal.id)) u x)
        over

  place_exits-Single :
      (ps : List (ExitPair D)) (w : World D)
      → Holds (Single symbol (ids ps) (sells ps)) w
      → Ends (λ _. Holds (Single symbol [] [])) (Holds (Single symbol [] [])) (place_exits env ps w)
  unfolding place_exits
  place_exits-Single [] w h = record { outcome = h }
  place_exits-Single (p ∷ ps) w h =
      Ends-bind (place_exit env p) (λ _. place_exits env ps) w
        (Ends-weaken _ (place_exit-Single p (ids ps) (sells ps) w h) (λ _ _ x. x)
          (λ v x. all_over ps v x))
        λ _ v h'. place_exits-Single ps v h'
    where
      all_over :
          (ps : List (ExitPair D)) (v : World D)
          → Holds (Single symbol (ids ps) (sells ps)) v
          → Holds (Single symbol [] []) v
      all_over [] v h = h
      all_over (p ∷ ps) v h = all_over ps v (
          settled-Single symbol p.sell_trade.id (ids ps) p.sell_trade (sells ps) v.trades
            v.transfers h)

  pub evaluate_and_execute_exits-Single :
      (y : String) (price : D)
      → Keeps (Single symbol [] []) (evaluate_and_execute_exits env y price)
  unfolding evaluate_and_execute_exits
  evaluate_and_execute_exits-Single y price w h =
      Ends-bind (within_transaction env (exit_transaction env y price)) (place_exits env) w
        (Ends-within_transaction env (Single symbol [] []) (λ ps. Single symbol (ids ps) (sells ps))
          (exit_transaction env y price) w h
          (exit_transaction-Collected symbol env y price (next_tick w) h))
        λ ps v h'. place_exits-Single ps v h'
