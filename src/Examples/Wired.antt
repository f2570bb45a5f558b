-- ===== src/Examples/Wired.antt =====
-- A server with a bar, a broker event and a watchlist.
use outbound_api.Prelude.{
  count, ℕ, ◌+◌, ◌≤◌, ◌≡◌, refl, false, true, some, none, String, str_eq, List, [], ◌∷◌, arith,
}
use outbound_api.Prelude.Integers.{ℤ, pos}
use outbound_api.Decimal.Whole.{whole_decimal}
use outbound_api.Model.{Side}
use outbound_api.Bot.{State, is_active}
use outbound_api.Http.{Request, post, to_stop}
use outbound_api.Alpaca.Supervisor.{StreamSupervisor}
use outbound_api.Budget.Tables.{held, slots}
use outbound_api.Watchlist.Refine.{is_in}
use outbound_api.Server.Seeding.{Bars}
use outbound_api.Server.Refresh.{Feed, Refusals, refresh}
use outbound_api.Server.Refresh.Follows.{Lists, refresh-is_in, refused_not_seeded}
use outbound_api.Server.Workers.{
  Bar, Server, Wiring, Event, bar_arrives, update_arrives, bar_worker, update_worker, bar_evaluated,
  request, handle_bar, happen_all,
}
use outbound_api.Server.Shutdown.{
  Moment, arrives, round, takes, leaves, moments, bar_pool, workers_return,
}
use outbound_api.Tracking.Rows.{rows, placed}
use outbound_api.Repository.Trades.{is_open_position, has_sell_child}
use outbound_api.Position.Session.{happen_all_one_position}
use outbound_api.Tracking.Session.{happen_all_tracked}
use outbound_api.Server.Workers.Session.{happen_all_budget}
use outbound_api.Server.Workers.Idle.{happen_all-idle}
use outbound_api.Examples.Data.{quiet, params, filled_update, good_news, oversold}
use outbound_api.Examples.Entries.{after_fill}
use outbound_api.Examples.Shadow.{tiers, risk_on}

abbrev pub wiring : Wiring ℤ
wiring = record {
  params = params;
  adaptive = tiers;
  live_sentiment = good_news;
  shadow_sentiment = good_news;
  api_key = [];
  regime_symbol = "SPY";
  ema_period = 50;
}

-- The live client is subscribed to what is wanted.
abbrev connected : StreamSupervisor
connected = record {
  symbols = λ t. str_eq "AAPL" t;
  client = some (λ t. str_eq "AAPL" t);
  connecting = none;
}

abbrev feed : Feed ℤ
feed = record { supervisor = connected; indicators = oversold; regime = risk_on }

abbrev no_bars : Bars ℤ
no_bars symbol = none

abbrev bar : Bar ℤ
bar = record { symbol = "AAPL"; close = pos 130; timestamp = 9 }

abbrev stop_request : Request
stop_request = record { method = post; authorization = [] }

-- A bar above the take-profit is received and evaluated, the broker fills an order, and the bot is stopped.
abbrev pub events : List (Event ℤ)
events =
    bar_arrives bar
    ∷ bar_worker
    ∷ bar_evaluated 0
    ∷ update_arrives filled_update
    ∷ update_worker
    ∷ request to_stop stop_request
    ∷ []

abbrev server : Server ℤ
server = record {
  bot = State.running;
  feed = feed;
  bars = record { buffer = []; capacity = 200 };
  in_flight = [];
  updates = record { buffer = filled_update ∷ []; capacity = 64 };
  world = after_fill;
}

happen_all_budget_example :
    (k : ℕ) × (slots 7 (happen_all quiet wiring events server).world.transfers ≡ some k)
    × (k + held 7 (happen_all quiet wiring events server).world.trades
        ≡ 2 + held 7 after_fill.trades)
happen_all_budget_example =
    happen_all_budget quiet wiring 7 2 events server (refl, tt) (refl, tt) refl

happen_all_tracked_example :
    let w = (happen_all quiet wiring events server).world in
    placed Side.sell "AAPL" w ≤ rows Side.sell "AAPL" w.trades
happen_all_tracked_example =
    happen_all_tracked quiet wiring Side.sell "AAPL" events server (λ i. refl) (refl, tt)
      (ground arith)

happen_all_one_position_example :
    let ts = (happen_all quiet wiring events server).world.trades in
    count (is_open_position ts "AAPL") ts ≤ 1
unfolding is_open_position has_sell_child
happen_all_one_position_example =
    happen_all_one_position quiet wiring "AAPL" events server (refl, tt) (ground arith)

abbrev stopped : Server ℤ
stopped = record server { bot = State.stopped }

happen_all-idle_example :
    (is_active (happen_all quiet wiring events stopped).bot ≡ false)
    × ((happen_all quiet wiring events stopped).world.orders ≡ stopped.world.orders)
unfolding is_active
happen_all-idle_example =
    happen_all-idle quiet wiring events stopped (tt, (tt, (tt, (tt, (tt, ((λ e. cc), tt)))))) refl
      refl

abbrev no_refusals : Refusals
no_refusals = record { at_subscribe = false; at_unsubscribe = false }

abbrev no_subscribing : Refusals
no_subscribing = record { at_subscribe = true; at_unsubscribe = false }

one_listed : Lists ("AAPL" ∷ []) connected
one_listed t = ground arith

refresh-is_in_example :
    (refresh no_bars no_refusals ("AAPL" ∷ []) (some ("MSFT" ∷ [])) feed).supervisor.symbols "MSFT"
    ≡ is_in "MSFT" ("MSFT" ∷ [])
refresh-is_in_example =
    refresh-is_in no_bars no_refusals ("AAPL" ∷ []) ("MSFT" ∷ []) feed one_listed "MSFT"

abbrev refused_feed : Feed ℤ
refused_feed = refresh no_bars no_subscribing ("AAPL" ∷ []) (some ("MSFT" ∷ [])) feed

now_listed : Lists ("MSFT" ∷ []) refused_feed.supervisor
now_listed = refresh-is_in no_bars no_subscribing ("AAPL" ∷ []) ("MSFT" ∷ []) feed one_listed

refused_not_seeded_example :
    ((refresh no_bars no_refusals ("MSFT" ∷ []) (some ("MSFT" ∷ [])) refused_feed).indicators
      ≡ feed.indicators)
    × ((t : String)
        → (refresh no_bars no_refusals
              ("MSFT" ∷ [])
              (some ("MSFT" ∷ []))
              refused_feed).supervisor.symbols
            t
          ≡ is_in t ("MSFT" ∷ []))
refused_not_seeded_example =
    refused_not_seeded no_bars false no_refusals ("AAPL" ∷ []) ("MSFT" ∷ []) ("MSFT" ∷ [])
      (λ t. str_eq "AAPL" t) feed refl one_listed now_listed

-- While the server shuts down, a bar arrives and is handled, and then every worker returns.
abbrev last_moments : List (Moment (Bar ℤ))
last_moments =
    arrives bar
    ∷ round takes
    ∷ round leaves
    ∷ round leaves
    ∷ round takes
    ∷ round leaves
    ∷ round leaves
    ∷ []

workers_return_example : (moments handle_bar last_moments (bar_pool server)).live ≡ 0
unfolding bar_pool
workers_return_example = workers_return handle_bar last_moments (bar_pool server) (omega arith)
