-- ===== src/Examples/Started.antt =====
-- The start of the program with the usual environment and a watchlist of two symbols.
use outbound_api.Prelude.{
  ℕ, ◌≡◌, refl, true, false, Option, none, some, str_eq, if◌then◌else◌, List, [], ◌∷◌,
}
use outbound_api.Prelude.Integers.{ℤ, pos}
use outbound_api.Prelude.Fallible.{success, failure}
use outbound_api.Decimal.Whole.{whole_decimal}
use outbound_api.Config.{
  Config, load, validate, decimal_setting, or_default, min_articles_setting, ema_period_setting,
  not_negative_or, positive_or,
}
use outbound_api.Database.{
  Stored, Drivers, applied, refused, apply_failed, raised_max_conns, new_pool, migrate,
}
use outbound_api.Watchlist.{Watchlist, get_active_rows, get_all_active}
use outbound_api.Server.Startup.{
  Surroundings, Started, bad_database, before_migrations, started, start_up,
}
use outbound_api.Server.Startup.Ready.{IsReady, start_up-IsReady}
use outbound_api.Server.Startup.Manual.{start_up-orders}
use outbound_api.Server.Workers.{happen_all}
use outbound_api.Examples.Data.{quiet}
use outbound_api.Examples.Wired.{wiring, events}
use outbound_api.Examples.Settings.{parse_some, scan_some, usual}
use outbound_api.Examples.Entries.{after_fill, filled_buy}

abbrev decimal_of : Option ℕ → Option ℤ
decimal_of none = none
decimal_of (some n) = some (pos n)

abbrev two_symbols : List Watchlist
two_symbols =
    record { symbol = "AAPL"; is_active = true }
    ∷ record { symbol = "MSFT"; is_active = false }
    ∷ []

abbrev one_symbol : List Watchlist
one_symbol = record { symbol = "MSFT"; is_active = false } ∷ []

-- A migration that writes the trade of the example and the symbols of the watchlist.
abbrev fill_columns : Stored ℤ → Stored ℤ
fill_columns tables = record tables { trades = filled_buy ∷ []; watchlist = two_symbols }

-- A pool of four connections, and a migration that is still to be applied.
abbrev drivers : Drivers ℤ
drivers = record {
  parse_config = λ url. some 4;
  creates = λ n. true;
  pings = true;
  reads_source = true;
  makes_instance = λ url. true;
  up = applied fill_columns;
}

abbrev surroundings : Surroundings ℤ
surroundings = record {
  parse_decimal = λ t. decimal_of (parse_some t);
  scan_int = scan_some;
  getenv = usual;
  drivers = drivers;
  watchlist_fails = false;
  watchlist = one_symbol;
  bars = λ t. none;
  world = after_fill;
}

abbrev config : Config ℤ
config = record {
  alpaca_api_key = "key";
  alpaca_api_secret = "key";
  alpaca_base_url = "https://paper-api.alpaca.markets";
  database_url = "postgres://localhost/bot";
  port = "8080";
  bot_auto_start = true;
  bot_api_key = "key";
  sentiment_api_base_url = "https://api.deepseek.com";
  sentiment_api_key = "key";
  sentiment_model = "deepseek-v4-flash";
  sentiment_min_articles = 3;
  regime_symbol = "SPY";
  regime_ema_period = 50;
  risk_per_trade_pct = pos 100;
  atr_risk_multiplier = pos 20000;
  take_profit_multiplier = pos 30000;
  commission_fee_pct = pos 5;
  fx_fee_pct = pos 1;
  break_even_atr_trigger = pos 10000;
  trail_atr_trigger = pos 15000;
  trail_atr_distance = pos 20000;
}

abbrev migrated : Stored ℤ
migrated = fill_columns (before_migrations surroundings)

abbrev now_started : Started ℤ
now_started = started surroundings config 10 migrated ("AAPL" ∷ [])

starts : start_up surroundings ≡ success now_started
unfolding start_up load validate decimal_setting or_default min_articles_setting ema_period_setting
    not_negative_or positive_or new_pool raised_max_conns migrate get_all_active get_active_rows
starts = refl

start_up-IsReady_example : IsReady surroundings now_started
start_up-IsReady_example = start_up-IsReady surroundings now_started (refl, (refl, tt)) starts

-- A migration that fails ends the program.
refuses_migration :
    start_up (record surroundings { drivers = record drivers { up = refused } })
    ≡ failure (bad_database apply_failed)
unfolding start_up load validate decimal_setting or_default min_articles_setting ema_period_setting
    not_negative_or positive_or new_pool raised_max_conns migrate
refuses_migration = refl

-- The same without an automatic start.
abbrev waiting : Surroundings ℤ
waiting = record surroundings {
  getenv = λ name. if str_eq name "BOT_AUTOSTART" then "false" else usual name;
}

abbrev now_waiting : Started ℤ
now_waiting = started waiting (record config { bot_auto_start = false }) 10 migrated ("AAPL" ∷ [])

starts_waiting : start_up waiting ≡ success now_waiting
unfolding start_up load validate decimal_setting or_default min_articles_setting ema_period_setting
    not_negative_or positive_or new_pool raised_max_conns migrate get_all_active get_active_rows
starts_waiting = refl

start_up-orders_example :
    (happen_all quiet wiring events now_waiting.server).world.orders ≡ after_fill.orders
start_up-orders_example =
    start_up-orders waiting now_waiting starts_waiting refl quiet wiring events
      (tt, (tt, (tt, (tt, (tt, ((λ e. cc), tt))))))
