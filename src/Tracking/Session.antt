-- ===== src/Tracking/Session.antt =====
-- Whatever arrives at the server, an order that the broker has accepted has its row, if the broker keeps
-- no order whose answer is an error.
use outbound_api.Prelude.{ℕ, ◌≤◌, ◌≡◌, false, String, List, [], arith}
use outbound_api.Prelude.Table.{Unique}
use outbound_api.Model.{Side}
use outbound_api.Decimal.{Decimal}
use outbound_api.Repository.Store.{Env, World}
use outbound_api.Repository.Outcome.{Ends_state}
use outbound_api.Repository.Alike.{trade_id}
use outbound_api.Server.Refresh.{Feed}
use outbound_api.Server.Workers.{Bar, Server, Wiring, Event, event_of, evaluated, happen_all}
use outbound_api.Server.Workers.Lifts.{happen_all-keeps}
use outbound_api.Tracking.Rows.{rows, placed}
use outbound_api.Tracking.Placing.{IsReported, Tracked}
use outbound_api.Tracking.Bars.{evaluate_bar-Tracked}
use outbound_api.Tracking.Updates.{apply_trade_updates-Tracked}

module _ {D : Type 0} ⦃dec : Decimal D⦄ (side : Side) (symbol : String) (env : Env D)
    (reported : IsReported env) (wiring : Wiring D) where
  abbrev State : World D → Type 0
  State = Tracked side symbol 0 []

  bar_keeps :
      (feed : Feed D) (bar : Bar D) (w : World D)
      → State w
      → State (evaluated env wiring feed bar w)
  unfolding evaluated
  bar_keeps feed bar w h = Ends_state State _ (
      evaluate_bar-Tracked side symbol env reported wiring.params wiring.adaptive feed.regime
        wiring.shadow_sentiment wiring.live_sentiment feed.indicators (event_of env wiring bar) w h)

  happen_all-Tracked :
      (events : List (Event D)) (s : Server D)
      → State s.world
      → State (happen_all env wiring events s).world
  happen_all-Tracked = happen_all-keeps env wiring State bar_keeps λ u status w h.
      Ends_state State _ (apply_trade_updates-Tracked side symbol env wiring.params u status w h)

module _ {D : Type 0} ⦃dec : Decimal D⦄ (env : Env D) (wiring : Wiring D) where
  -- Whatever arrives, is requested and is ticked, in any order, each handled to its end before the
  -- next, and however the calls fail, there are at least as many rows of trades on a side and of a
  -- symbol as orders that the broker has accepted for them, if the broker keeps no order whose answer
  -- is an error, if this was so when the server started, and the primary keys of the trades were
  -- unique.
  pub happen_all_tracked :
      (side : Side) (symbol : String) (events : List (Event D)) (s : Server D)
      → ((i : ℕ) → env.is_kept i ≡ false)
      → Unique trade_id s.world.trades
      → placed side symbol s.world ≤ rows side symbol s.world.trades
      → let w = (happen_all env wiring events s).world in
        placed side symbol w ≤ rows side symbol w.trades
  happen_all_tracked side symbol events s reported unique covered =
      let start : Tracked side symbol 0 [] s.world = record {
        unique = unique;
        enough = omega arith;
        known = tt;
      } in
      let enough = (happen_all-Tracked side symbol env reported wiring events s start).enough in
      omega arith
