-- ===== src/Position/Session.antt =====
-- Whatever arrives at the server, at most one position of a symbol is open.
use outbound_api.Prelude.{◌≤◌, ◌≡◌, sym, ◌∙◌, String, List, [], arith, count, ==_iff}
use outbound_api.Prelude.Table.{Unique}
use outbound_api.Model.{Trade}
use outbound_api.Repository.Trades.{is_open_position, has_sell_child}
use outbound_api.Decimal.{Decimal}
use outbound_api.Repository.Store.{Env, World}
use outbound_api.Repository.Outcome.{Ends_state, Holds}
use outbound_api.Repository.Alike.{trade_id}
use outbound_api.Server.Refresh.{Feed}
use outbound_api.Server.Workers.{Bar, Server, Wiring, Event, event_of, evaluated, happen_all}
use outbound_api.Server.Workers.Lifts.{happen_all-keeps}
use outbound_api.Position.Rows.{is_open, is_child, children, count-le}
use outbound_api.Position.Tables.{Single}
use outbound_api.Position.Buy.{any-count, count-any}
use outbound_api.Position.Bars.{evaluate_bar-Single, apply_trade_updates-Single}

module _ {D : Type 0} ⦃dec : Decimal D⦄ (symbol : String) (env : Env D) (wiring : Wiring D) where
  abbrev State : World D → Type 0
  State = Holds (Single symbol [] [])

  bar_keeps :
      (feed : Feed D) (bar : Bar D) (w : World D)
      → State w
      → State (evaluated env wiring feed bar w)
  unfolding evaluated
  bar_keeps feed bar w h = Ends_state State _ (
      evaluate_bar-Single symbol env wiring.params wiring.adaptive feed.regime
        wiring.shadow_sentiment wiring.live_sentiment feed.indicators (event_of env wiring bar) w h)

  happen_all-Single :
      (events : List (Event D)) (s : Server D)
      → State s.world
      → State (happen_all env wiring events s).world
  happen_all-Single = happen_all-keeps env wiring State bar_keeps λ u status w h.
      Ends_state State _ (apply_trade_updates-Single symbol env wiring.params u status w h)

module _ {D : Type 0} (symbol : String) (ts : List (Trade D)) where
  -- The test of `HasOpenPosition` and the one of the invariant agree.
  is_open_position-is_open : (t : Trade D) → is_open_position ts symbol t ≡ is_open symbol [] ts t
  unfolding is_open_position has_sell_child
  is_open_position-is_open t =
      let sold = count-any (is_child [] t.id) ts in
      let unsold = any-count (is_child [] t.id) ts in ground (arith, ==_iff (children [] ts t.id) 0)

module _ {D : Type 0} ⦃dec : Decimal D⦄ (env : Env D) (wiring : Wiring D) where
  -- Whatever arrives, is requested and is ticked, in any order, each handled to its end before the
  -- next, and however the calls fail, at most one position of a symbol is open by the condition of
  -- `HasOpenPosition`, if at most one was open when the server started and the primary keys of the
  -- trades were unique.
  pub happen_all_one_position :
      (symbol : String) (events : List (Event D)) (s : Server D)
      → Unique trade_id s.world.trades
      → count (is_open_position s.world.trades symbol) s.world.trades ≤ 1
      → let ts = (happen_all env wiring events s).world.trades in
        count (is_open_position ts symbol) ts ≤ 1
  happen_all_one_position symbol events s unique one =
      let us = s.world.trades in
      let before =
        count-le (is_open symbol [] us) (is_open_position us symbol) us
          (λ t e. is_open_position-is_open symbol us t ∙ e) in
      let end =
        (happen_all-Single symbol env wiring events s
          (record { unique = unique; one = omega arith; known = λ v. tt })).one in
      let ts = (happen_all env wiring events s).world.trades in
      let after =
        count-le (is_open_position ts symbol) (is_open symbol [] ts) ts
          (λ t e. sym (is_open_position-is_open symbol ts t) ∙ e) in
      omega arith
