-- ===== src/Server/Workers.antt =====
-- The workers of cmd/server/main.go, the handlers that feed them, and `main`'s state: the bot's state,
-- the feed, the two channels, the bars that a worker has let pass and not evaluated yet, and the world.
-- A step runs one handler, request, tick or round of the update worker to its end; a round of a bar
-- worker is two steps, the test of `IsActive` and `EvaluateBar`, between which anything else may
-- happen. A panic of a call ends the program; here it leaves the world as it is then.
pub mod Lifts
pub mod Session
pub mod Idle
use outbound_api.Prelude.{
  ℕ, zero, suc, Bool, true, false, Option, none, some, String, List, [], ◌∷◌, ltb, length,
  if◌then◌else◌,
}
use outbound_api.Decimal.{Decimal}
use outbound_api.Model.{Status}
use outbound_api.Repository.Store.{Env, World}
use outbound_api.Bot.{State, is_active}
use outbound_api.Http.{Bytes, Route, Request, serve}
use outbound_api.Alpaca.Mapper.{map_alpaca_event_to_status}
use outbound_api.Service.Signal.{Provider}
use outbound_api.Service.Trade.Sizing.{RiskParams}
use outbound_api.Service.Trade.Updates.{TradeUpdate, apply_trade_updates}
use outbound_api.Strategy.AdaptiveExit.{AdaptiveExitParams}
use outbound_api.Strategy.Live.{BarEvent}
use outbound_api.Strategy.Trading.{evaluate_bar}
use outbound_api.Server.Channel.{Channel, make_chan, offer, receive}
use outbound_api.Server.Seeding.{Bars}
use outbound_api.Server.Refresh.{Feed, Refusals, refresh, reseed}

-- stream.Bar, with the close as decimal.NewFromFloat makes it.
pub record Bar (D : Type 0) : Type 0 where
  pub symbol : String
  pub close : D
  pub timestamp : ℕ

pub record Server (D : Type 0) : Type 0 where
  pub bot : State
  pub feed : Feed D
  pub bars : Channel (Bar D)
  pub in_flight : List (Bar D)
  pub updates : Channel (TradeUpdate D)
  pub world : World D

-- What `main` builds its parts with.
pub record Wiring (D : Type 0) : Type 0 where
  pub params : RiskParams D
  pub adaptive : AdaptiveExitParams D
  pub live_sentiment : Provider
  pub shadow_sentiment : Provider
  pub api_key : Bytes
  pub regime_symbol : String
  pub ema_period : ℕ

-- The state of the bot when `main` starts, by `cfg.BotAutoStart`.
unfoldable pub initial_bot_state : Bool → State
initial_bot_state auto_start = if auto_start then State.running else State.stopped

abbrev pub new_server : {D : Type 0} → Bool → Feed D → World D → Server D
new_server auto_start feed w = record {
  bot = initial_bot_state auto_start;
  feed = feed;
  bars = make_chan 200;
  in_flight = [];
  updates = make_chan 64;
  world = w;
}

-- What can happen next. `bar_evaluated n` is the evaluation of the n-th bar in flight. A tick comes with the answers that its calls get.
pub data Event (D : Type 0) : Type 0 where
  bar_arrives : Bar D → Event D
  update_arrives : TradeUpdate D → Event D
  bar_worker update_worker : Event D
  bar_evaluated : ℕ → Event D
  request : Route → Request → Event D
  refresh_tick : Bars D → Refusals → List String → Option (List String) → Event D
  reseed_tick : Bars D → Option (List String) → Event D

abbrev pub num_workers : ℕ
num_workers = 5

module _ {D : Type 0} where
  -- A bar worker that has received: nothing without a bar, and the bar is thrown away while the bot is
  -- not active.
  unfoldable pub handle_bar : Option (Bar D) → Server D → Server D
  handle_bar none s = s
  handle_bar (some bar) s =
      if is_active s.bot then record s { in_flight = bar ∷ s.in_flight } else s

  -- A worker is at its `select` while fewer bars are in flight than there are workers.
  unfoldable pub next_bar : Server D → Server D
  unfolding handle_bar
  next_bar s =
      let (got, bars) = receive s.bars in
      if ltb (length s.in_flight) num_workers then handle_bar got (record s { bars = bars }) else s

  -- The n-th bar and the others.
  abbrev pub take_out : ℕ → List (Bar D) → Option (Bar D) × List (Bar D)
  take_out n [] = (none, [])
  take_out zero (bar ∷ rest) = (some bar, rest)
  take_out (suc n) (bar ∷ rest) = let (got, left) = take_out n rest in (got, bar ∷ left)

module _ {D : Type 0} ⦃dec : Decimal D⦄ (env : Env D) (wiring : Wiring D) where
  abbrev pub event_of : Bar D → BarEvent D
  event_of bar = record { symbol = bar.symbol; price = bar.close; bar_time = bar.timestamp }

  -- `coordinator.EvaluateBar`, whose error is logged.
  unfoldable pub evaluated : Feed D → Bar D → World D → World D
  evaluated feed bar w =
      (evaluate_bar env wiring.params wiring.adaptive feed.regime wiring.shadow_sentiment
        wiring.live_sentiment feed.indicators (event_of bar) w).1

  -- The second half of the round, for the bar that was in flight.
  unfoldable pub evaluate_taken : Option (Bar D) → Server D → Server D
  unfolding evaluated
  evaluate_taken none s = s
  evaluate_taken (some bar) s = record s { world = evaluated s.feed bar s.world }

  unfoldable pub apply_mapped : TradeUpdate D → Option Status → World D → World D
  apply_mapped u none w = w
  apply_mapped u (some status) w = (apply_trade_updates env wiring.params u status w).1

  -- The round of the worker of the trade updates.
  unfoldable pub handle_update : Option (TradeUpdate D) → Server D → Server D
  unfolding apply_mapped
  handle_update none s = s
  handle_update (some u) s = record s {
    world = apply_mapped u (map_alpaca_event_to_status u.event) s.world;
  }

  unfoldable pub happen : Event D → Server D → Server D
  unfolding next_bar evaluate_taken handle_update
  happen (bar_arrives bar) s = record s { bars = (offer bar s.bars).1 }
  happen (update_arrives u) s = record s { updates = (offer u s.updates).1 }
  happen bar_worker s = next_bar s
  happen (bar_evaluated n) s =
      let (got, left) = take_out n s.in_flight in evaluate_taken got (record s { in_flight = left })
  happen update_worker s =
      let (got, updates) = receive s.updates in handle_update got (record s { updates = updates })
  happen (request route r) s = record s { bot = (serve wiring.api_key route r s.bot).1 }
  happen (refresh_tick bars refusals listed fetched) s = record s {
    feed = refresh bars refusals listed fetched s.feed;
  }
  happen (reseed_tick bars fetched) s = record s {
    feed = reseed bars wiring.regime_symbol wiring.ema_period fetched s.feed;
  }

  unfoldable pub happen_all : List (Event D) → Server D → Server D
  happen_all [] s = s
  happen_all (e ∷ rest) s = happen_all rest (happen e s)
