-- ===== src/Budget/Shadow.antt =====
-- The shadow pass over a bar keeps the budget: of the trades that it writes it changes only the peak.
use outbound_api.Prelude.{ℕ, ◌+◌, ◌≡◌, refl, sym, ap, ◌∙◌, some, List, ◌∷◌, All}
use outbound_api.Prelude.Table.{bit, update}
use outbound_api.Decimal.{Decimal}
use outbound_api.Model.{Trade}
use outbound_api.Repository.Store.{Env, World}
use outbound_api.Repository.Outcome.{Ends-weaken, Tables}
use outbound_api.Repository.Trades.{overwrite, update_trade}
use outbound_api.Indicator.Cache.{IndicatorCache}
use outbound_api.Indicator.Regime.{RegimeCache}
use outbound_api.Service.Signal.{Provider}
use outbound_api.Strategy.AdaptiveExit.{AdaptiveExitParams}
use outbound_api.Strategy.Live.{BarEvent}
use outbound_api.Strategy.Trading.{shadow_evaluate_bar}
use outbound_api.Repository.Effects.{SameTables-Holds, update_trade_effect}
use outbound_api.Repository.Alike.{Alike, filter-Alike, All-Alike-update}
use outbound_api.Repository.Alike.{trade_id}
use outbound_api.Budget.Tables.{holds, Sound, update-Sound}
use outbound_api.Strategy.Trading.Writes.{shadow_evaluate_bar-Keeps}
use outbound_api.Repository.Keeps.{Keeps}

module _ {D : Type 0} (a : ℕ) where
  -- The budget, and rows that the pass has read and not yet handled.
  abbrev Read : ℕ → List (Trade D) → Tables D
  Read total l ts fs = Sound a total ts fs × All (Alike (holds a) ts) l

  module _ (env : Env D) (total : ℕ) where
    update_trade-Read :
        (t new : Trade D) (l : List (Trade D))
        → new.id ≡ t.id
        → holds a new ≡ holds a t
        → Keeps (Read total (t ∷ l)) (update_trade env new)
    update_trade-Read t new l id slot w (s, alike) =
        let (r, e, same) = alike.0 in
        Ends-weaken (update_trade env new w) (update_trade_effect env new w)
          (λ _ v written.
            let after : World D = record w {
              trades = update trade_id new.id (overwrite env new) w.trades;
            } in
            SameTables-Holds (Read total (t ∷ l)) after v written (
              update-Sound a total w.trades w.transfers new.id (overwrite env new) r total
                  (λ x. refl) s (rw id e) (ap (λ b. total + bit b) (slot ∙ sym same)),
              All-Alike-update (holds a) env (λ x r. refl) t new w.trades (t ∷ l) id slot alike.0
                  alike,
            ))
          (λ v unchanged. SameTables-Holds (Read total (t ∷ l)) w v unchanged (s, alike))

module _ {D : Type 0} ⦃dec : Decimal D⦄ (env : Env D) (a total : ℕ) where
  pub shadow_evaluate_bar-Sound :
      (p : AdaptiveExitParams D) (regime : RegimeCache) (provider : Provider)
      (cache : IndicatorCache D) (event : BarEvent D)
      → Keeps (Sound a total) (shadow_evaluate_bar env p regime provider cache event)
  shadow_evaluate_bar-Sound =
      shadow_evaluate_bar-Keeps env (Sound a total) (Read a total)
        (λ p ts fs s. (s, filter-Alike (holds a) p ts s.unique_trades))
        (λ t l x. update_trade-Read a env total t (record t { peak_price = some x }) l refl refl)
        (λ t l ts fs h. (h.0, h.1.1)) (λ ts fs h. h.0)
