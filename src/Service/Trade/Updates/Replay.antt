-- ===== src/Service/Trade/Updates/Replay.antt =====
-- Broker events of trades that are settled.
use outbound_api.Prelude.{
  ◌≡◌, refl, ap, ◌∙◌, ◌⊎◌, true, String, some, List, [], ◌∷◌, All, find, Bool-cases, inl, inr,
}
use outbound_api.Decimal.{Decimal}
use outbound_api.Model.{Trade, Status, is_terminal}
use outbound_api.Repository.Store.{Env, World, next_tick}
use outbound_api.Repository.Outcome.{Ends, Ends_state, Ends-bind}
use outbound_api.Repository.Effects.{Untouched}
use outbound_api.Repository.Trades.{same_order, get_by_alpaca_order_id}
use outbound_api.Service.Trade.Sizing.{RiskParams}
use outbound_api.Service.Trade.Updates.{TradeUpdate, apply_to, apply_trade_updates}

module _ {D : Type 0} ⦃dec : Decimal D⦄ (env : Env D) (cfg : RiskParams D) where
  found_effect :
      (order : String) (w : World D)
      → Ends
          (λ o v.
            (o ≡ find (λ r. same_order r.alpaca_order_id (some order)) w.trades)
            × (v ≡ next_tick w))
          (Untouched w)
          (get_by_alpaca_order_id env order w)
  unfolding get_by_alpaca_order_id
  found_effect order w = elim (Bool-cases (env.db_fails w.tick)) [
    | inl bad ↦ rw bad (record { outcome = ((refl, refl), refl, refl, refl) })
    | inr good ↦ rw good (record { outcome = (refl, refl) })
  ]

  -- The events and their statuses applied in order, whether or not the calls fail.
  abbrev pub replay : List (TradeUpdate D × Status) → World D → World D
  replay [] w = w
  replay ((u, status) ∷ rest) w = replay rest (apply_trade_updates env cfg u status w).1

  settled-Untouched :
      (u : TradeUpdate D) (status : Status) (w : World D) (t : Trade D)
      → find (λ r. same_order r.alpaca_order_id (some u.order_id)) w.trades ≡ some t
      → is_terminal t.status ≡ true
      → Ends (λ _. Untouched w) (Untouched w) (apply_trade_updates env cfg u status w)
  unfolding apply_trade_updates apply_to
  settled-Untouched u status w t found settled =
      Ends-bind (get_by_alpaca_order_id env u.order_id) (apply_to env cfg u status) w
        {P = λ o v.
          (o ≡ find (λ r. same_order r.alpaca_order_id (some u.order_id)) w.trades)
          × (v ≡ next_tick w)}
        (found_effect u.order_id w)
        λ o v (known, here).
          rw (here, known, found, settled) (record { outcome = ((refl, refl), refl, refl, refl) })

  Untouched-trans : (w v u : World D) → Untouched w v → Untouched v u → Untouched w u
  Untouched-trans w v u ((a, b), c, d, e) ((a', b'), c', d', e') =
      ((a' ∙ a, b' ∙ b), c' ∙ c, d' ∙ d, e' ∙ e)

  settled_is_terminal :
      (status : Status)
      → (status ≡ Status.filled) ⊎ (status ≡ Status.cancelled) ⊎ (status ≡ Status.rejected)
      → is_terminal status ≡ true
  settled_is_terminal status (inl e) = rw e refl
  settled_is_terminal status (inr (inl e)) = rw e refl
  settled_is_terminal status (inr (inr e)) = rw e refl

  -- Once the trade of an order is filled, cancelled or rejected, any sequence of further events of the
  -- order, whatever they say and however the calls fail, changes no table and places no order.
  pub replay-Untouched :
      (order : String) (events : List (TradeUpdate D × Status)) (w : World D) (t : Trade D)
      → find (λ r. same_order r.alpaca_order_id (some order)) w.trades ≡ some t
      → (t.status ≡ Status.filled) ⊎ (t.status ≡ Status.cancelled) ⊎ (t.status ≡ Status.rejected)
      → All (λ e. e.0.order_id ≡ order) events
      → Untouched w (replay events w)
  replay-Untouched order [] w t found settled same = ((refl, refl), refl, refl, refl)
  replay-Untouched order ((u, status) ∷ rest) w t found settled (here, same) =
      let v = (apply_trade_updates env cfg u status w).1 in
      let kept : Untouched w v = Ends_state (Untouched w) (apply_trade_updates env cfg u status w) (
        settled-Untouched u status w t
          (ap (λ o. find (λ r. same_order r.alpaca_order_id (some o)) w.trades) here ∙ found)
          (settled_is_terminal t.status settled)) in
      Untouched-trans w v (replay rest v) kept (
        replay-Untouched order rest v t
          (ap (find (λ r. same_order r.alpaca_order_id (some order))) kept.0.0 ∙ found) settled
          same)
