-- ===== src/Server/Startup.antt =====
-- The start of `main` in cmd/server/main.go, up to the server's first state: the configuration, the
-- pool, the migrations and the watchlist, each of which ends the program with an error.
pub mod Ready
pub mod Manual
use outbound_api.Prelude.{ℕ, Bool, Option, String, List}
use outbound_api.Prelude.Integers.{ℤ}
use outbound_api.Prelude.Fallible.{Fallible, success, failure, ◌>>=◌, ◌>>◌, or_fail}
use outbound_api.Decimal.{Decimal}
use outbound_api.Repository.Store.{World}
use outbound_api.Config
use outbound_api.Config.{Config, load}
use outbound_api.Database.{Stored, Drivers, DatabaseError, new_pool, migrate}
use outbound_api.Watchlist.{Rows, get_all_active}
use outbound_api.Server.Seeding.{Bars}
use outbound_api.Server.Refresh.{new_feed}
use outbound_api.Server.Workers.{Server, new_server}

-- `os.Exit(1)`, with the step that failed.
pub data Exit : Type 0 where
  bad_config : Config.Failure → Exit
  bad_database : DatabaseError → Exit
  no_watchlists : Exit

abbrev pub or_exit : {E A : Type 0} → (E → Exit) → Fallible E A → Fallible Exit A
or_exit f (success a) = success a
or_exit f (failure e) = failure (f e)

-- What surrounds the program: the environment variables, the drivers, the watchlist's table and
-- whether its query fails, the broker's bars and the rest of the database.
pub record Surroundings (D : Type 0) : Type 0 where
  pub parse_decimal : String → Option D
  pub scan_int : String → Option ℤ
  pub getenv : String → String
  pub drivers : Drivers D
  pub watchlist_fails : Bool
  pub watchlist : Rows
  pub bars : Bars D
  pub world : World D

-- The program that has started.
pub record Started (D : Type 0) : Type 0 where
  pub config : Config D
  pub max_conns : ℕ
  pub server : Server D

module _ {D : Type 0} ⦃dec : Decimal D⦄ (x : Surroundings D) where
  -- The tables before the migrations.
  abbrev pub before_migrations : Stored D
  before_migrations = record {
    trades = x.world.trades;
    signals = x.world.signals;
    transfers = x.world.transfers;
    decisions = x.world.decisions;
    watchlist = x.watchlist;
  }

  -- The world with the tables that the migrations left.
  abbrev pub migrated_world : Stored D → World D
  migrated_world tables = record (x.world) {
    trades = tables.trades;
    signals = tables.signals;
    transfers = tables.transfers;
    decisions = tables.decisions;
  }

  unfoldable pub started : Config D → ℕ → Stored D → List String → Started D
  started cfg max_conns tables watchlists = record {
    config = cfg;
    max_conns = max_conns;
    server =
        new_server cfg.bot_auto_start
          (new_feed x.bars cfg.regime_symbol cfg.regime_ema_period watchlists)
          (migrated_world tables);
  }

  unfoldable pub start_up : Fallible Exit (Started D)
  unfolding started
  start_up = do
    cfg ← or_exit bad_config (load x.parse_decimal x.scan_int x.getenv)
    max_conns ← or_exit bad_database (new_pool x.drivers cfg.database_url)
    tables ← or_exit bad_database (migrate x.drivers cfg.database_url before_migrations)
    watchlists ← or_fail (get_all_active x.watchlist_fails tables.watchlist) no_watchlists
    success (started cfg max_conns tables watchlists)
