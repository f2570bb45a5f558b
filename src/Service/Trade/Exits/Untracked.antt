-- ===== src/Service/Trade/Exits/Untracked.antt =====
-- An exit whose order is with the broker although `PlaceOrder` has returned an error.
use outbound_api.Prelude.{
  ◌+◌, ◌≡◌, refl, sym, ◌∙◌, not, ◌&&◌, true, false, none, ◌∷◌, ◌==◌, is_some_of, any, arith, List,
}
use outbound_api.Model.{Trade, AccountTransfer}
use mathlib.Core.Path.{subst}
use outbound_api.Prelude.Table.{lookup, lookup-erase}
use outbound_api.Decimal.{Decimal}
use outbound_api.Repository.Store.{Env, World, Error, keep_order, best_effort, place_order}
use outbound_api.Repository.Outcome.{
  Ends, Ends_state, Ends-weaken, Ends-bind, Ends-best_effort, Holds,
}
use outbound_api.Repository.Keeps.{best_effort-Keeps, Reads-Keeps}
use outbound_api.Repository.Reads.{delete_signal-Reads}
use outbound_api.Repository.Trades.{delete_trade}
use outbound_api.Repository.Alike.{trade_id}
use outbound_api.Repository.Signals.{delete_signal}
use outbound_api.Service.Trade.Sell.{sell_request}
use outbound_api.Service.Trade.Exits.{ExitPair, place_exit, settle_exit, abandon_exit}
use outbound_api.Service.Trade.Exits.Answers.{
  sent, sent_kept, place_exit-sent, place_order-is_panic,
}
use outbound_api.Repository.Orders.Logged.{no_panic-handled}

module _ {D : Type 0} ⦃dec : Decimal D⦄ (env : Env D) (p : ExitPair D) where
  abbrev Gone : List (Trade D) → List (AccountTransfer D) → Type 0
  Gone ts fs = lookup trade_id p.sell_trade.id ts ≡ none

  abbrev IsGone : World D → Type 0
  IsGone = Holds Gone

  delete_trade-IsGone :
      (w : World D)
      → env.db_fails w.tick ≡ false
      → any (λ r. not (r.id == p.sell_trade.id) && is_some_of p.sell_trade.id r.parent_id) w.trades
        ≡ false
      → Ends (λ _. IsGone) IsGone (delete_trade env p.sell_trade.id w)
  unfolding delete_trade
  delete_trade-IsGone w answers alone =
      rw (answers, alone, delete_trade)
        (record {
          outcome = ground (arith, lookup-erase trade_id p.sell_trade.id p.sell_trade.id w.trades);
        })

  abandon_exit-IsGone :
      (e : Error) (w : World D)
      → env.db_fails w.tick ≡ false
      → any (λ r. not (r.id == p.sell_trade.id) && is_some_of p.sell_trade.id r.parent_id) w.trades
        ≡ false
      → Ends (λ _. IsGone) IsGone (abandon_exit env p e w)
  unfolding abandon_exit
  abandon_exit-IsGone e w answers alone =
      Ends-bind (best_effort (delete_trade env p.sell_trade.id))
        (λ _. best_effort (delete_signal env p.signal.id)) w
        (Ends-best_effort (delete_trade env p.sell_trade.id) w IsGone
          (delete_trade-IsGone w answers alone))
        λ _ v gone.
          best_effort-Keeps Gone (delete_signal env p.signal.id)
            (Reads-Keeps Gone env (delete_signal env p.signal.id)
              (delete_signal-Reads env p.signal.id))
            v gone

  lost_answer :
      (w : World D)
      → env.place_order w.tick ≡ none
      → env.is_kept w.tick ≡ true
      → Ends
          (λ _ _. ⊥)
          (λ v. v ≡ keep_order env (sell_request p.signal p.sell_trade) w)
          (place_order env (sell_request p.signal p.sell_trade) w)
  unfolding place_order
  lost_answer w lost kept = rw (lost, kept, place_order) (record { outcome = refl })

  place_exit-IsGone :
      (w : World D)
      → env.place_order w.tick ≡ none
      → env.is_kept w.tick ≡ true
      → env.db_fails (w.tick + 1) ≡ false
      → any (λ r. not (r.id == p.sell_trade.id) && is_some_of p.sell_trade.id r.parent_id) w.trades
        ≡ false
      → Ends (λ _. IsGone) IsGone (place_exit env p w)
  unfolding place_exit
  place_exit-IsGone w lost kept answers alone =
      no_panic-handled (place_order env (sell_request p.signal p.sell_trade)) (settle_exit env p)
        (abandon_exit env p) w (lost_answer w lost kept)
        (place_order-is_panic env (sell_request p.signal p.sell_trade) w) (λ id v x. absurd x)
        λ e v same.
          subst (λ u. Ends (λ _. IsGone) IsGone (abandon_exit env p e u)) (sym same)
            (abandon_exit-IsGone e _ answers alone)

  -- When the broker keeps an exit's order although its answer is an error, the database answers the next
  -- call, and no other trade has the sell as its parent, then after the exit the order is placed and no
  -- trade has the identifier of the sell.
  pub place_exit_untracked :
      (w : World D)
      → env.place_order w.tick ≡ none
      → env.is_kept w.tick ≡ true
      → env.db_fails (w.tick + 1) ≡ false
      → any (λ r. not (r.id == p.sell_trade.id) && is_some_of p.sell_trade.id r.parent_id) w.trades
        ≡ false
      → let v = (place_exit env p w).1 in
        (v.orders ≡ sell_request p.signal p.sell_trade ∷ w.orders)
        × (lookup trade_id p.sell_trade.id v.trades ≡ none)
  place_exit_untracked w lost kept answers alone =
      let r = sell_request p.signal p.sell_trade in
      let placed =
        Ends_state (λ v. v.orders ≡ sent env w.tick r w.orders) (place_exit env p w)
          (Ends-weaken _ (place_exit-sent env p w) (λ _ _ (o, t). o) (λ _ x. absurd x)) in
      (
        placed ∙ sent_kept env w.tick r w.orders lost kept,
        Ends_state IsGone (place_exit env p w) (place_exit-IsGone w lost kept answers alone),
      )
