-- ===== src/Server/Workers/Session.antt =====
-- Whatever arrives at the server, the budget of a funding transfer is kept.
use outbound_api.Prelude.{ℕ, ◌+◌, ◌≡◌, some, List}
use outbound_api.Prelude.Table.{Unique}
use outbound_api.Decimal.{Decimal}
use outbound_api.Repository.Store.{Env, World}
use outbound_api.Repository.Outcome.{Ends_state, Holds}
use outbound_api.Repository.Alike.{trade_id}
use outbound_api.Server.Refresh.{Feed}
use outbound_api.Server.Workers.{Bar, Server, Wiring, Event, event_of, evaluated, happen_all}
use outbound_api.Server.Workers.Lifts.{happen_all-keeps}
use outbound_api.Budget.Tables.{transfer_id, held, slots, Sound}
use outbound_api.Budget.Session.{Adds-of, Adds-out}
use outbound_api.Budget.Bars.{evaluate_bar-Sound}
use outbound_api.Budget.Updates.{apply_trade_updates-Sound}

module _ {D : Type 0} ⦃dec : Decimal D⦄ (a total : ℕ) (env : Env D) (wiring : Wiring D) where
  abbrev State : World D → Type 0
  State = Holds (Sound a total)

  bar_keeps :
      (feed : Feed D) (bar : Bar D) (w : World D)
      → State w
      → State (evaluated env wiring feed bar w)
  unfolding evaluated
  bar_keeps feed bar w h = Ends_state State _ (
      evaluate_bar-Sound env wiring.params a total wiring.adaptive feed.regime
        wiring.shadow_sentiment wiring.live_sentiment feed.indicators (event_of env wiring bar) w h)

  happen_all-Sound :
      (events : List (Event D)) (s : Server D)
      → State s.world
      → State (happen_all env wiring events s).world
  happen_all-Sound = happen_all-keeps env wiring State bar_keeps λ u status w h.
      Ends_state State _ (apply_trade_updates-Sound env wiring.params a total u status w h)

module _ {D : Type 0} ⦃dec : Decimal D⦄ (env : Env D) (wiring : Wiring D) where
  -- Whatever arrives, is requested and is ticked, in any order, and however the calls fail, the slots
  -- left on a funding transfer and the buys on it that are not void add up to what they were when the
  -- server started, if the primary keys were unique then and the transfer has a counter.
  pub happen_all_budget :
      (a n : ℕ) (events : List (Event D)) (s : Server D)
      → Unique trade_id s.world.trades
      → Unique transfer_id s.world.transfers
      → slots a s.world.transfers ≡ some n
      → let s' = happen_all env wiring events s in
        (k : ℕ) × (slots a s'.world.transfers ≡ some k)
        × (k + held a s'.world.trades ≡ n + held a s.world.trades)
  happen_all_budget a n events s ut uf counter =
      let total : ℕ = n + held a s.world.trades in
      let start : Holds (Sound a total) s.world = record {
        unique_trades = ut;
        unique_transfers = uf;
        adds = Adds-of (held a s.world.trades) n (slots a s.world.transfers) counter;
      } in
      let end = happen_all-Sound a total env wiring events s start in
      Adds-out (held a (happen_all env wiring events s).world.trades) total
        (slots a (happen_all env wiring events s).world.transfers) end.adds
