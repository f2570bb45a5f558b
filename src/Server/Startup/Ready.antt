-- ===== src/Server/Startup/Ready.antt =====
-- What a program that has started can rely on.
use mathlib.Core.Option.{some-injective}
use mathlib.Core.Path.{subst}
use outbound_api.Prelude.{
  ℕ, ◌≤◌, ◌≡◌, refl, sym, ap, ◌∙◌, Bool, true, false, not, some, String, str_eq, List, [], arith,
}
use outbound_api.Prelude.Fallible.{
  Fallible, success, failure, OnSuccess, OnSuccess-success, OnSuccess-bind, OnSuccess-or_fail,
  OnSuccess-guard, guard, ◌>>◌,
}
use outbound_api.Decimal.{Decimal}
use outbound_api.Bot.{is_active}
use outbound_api.Config.{Config}
use outbound_api.Config.Promises.{IsUsable, load-IsUsable}
use outbound_api.Database.{
  Stored, UpAnswer, applied, no_change, refused, Drivers, DatabaseError, parse_failed,
  create_failed, ping_failed, source_failed, instance_failed, raised_max_conns, new_pool, up_result,
  migrate,
}
use outbound_api.Watchlist.{Rows, get_all_active, get_active_rows}
use outbound_api.Watchlist.Contents.{Distinct, listing}
use outbound_api.Watchlist.Refine.{is_in, is_active_flag, active_rows-listing}
use outbound_api.Alpaca.Supervisor.{new_stream_supervisor}
use outbound_api.Server.Refresh.{new_feed}
use outbound_api.Server.Refresh.Follows.{add_all-is_in}
use outbound_api.Server.Workers.{initial_bot_state}
use outbound_api.Server.Startup.{
  Exit, bad_config, bad_database, no_watchlists, or_exit, Surroundings, Started, before_migrations,
  started, start_up,
}

-- The change of the pending migrations.
abbrev pub tables_after : {D : Type 0} → UpAnswer D → Stored D → Stored D
tables_after (applied change) tables = change tables
tables_after no_change tables = tables
tables_after refused tables = tables

up_result-tables_after :
    {D : Type 0} (a : UpAnswer D) (old new : Stored D)
    → up_result a old ≡ success new
    → new ≡ tables_after a old
up_result-tables_after (applied change) old new e = cc
up_result-tables_after no_change old new e = cc
up_result-tables_after refused old new e = cc

bind_tables :
    {A : Type 0} (b : Bool) (e : DatabaseError) (m : Fallible DatabaseError A) (a : A)
    → (guard b e >> m) ≡ success a
    → m ≡ success a
bind_tables true e m a h = h
bind_tables false e m a h = cc

migrate-tables_after :
    {D : Type 0} (d : Drivers D) (url : String) (old new : Stored D)
    → migrate d url old ≡ success new
    → new ≡ tables_after d.up old
unfolding migrate
migrate-tables_after d url old new e = up_result-tables_after d.up old new (
    bind_tables (d.makes_instance url) instance_failed (up_result d.up old) new
      (bind_tables d.reads_source source_failed _ new e))

initial_bot_state-is_active : (b : Bool) → is_active (initial_bot_state b) ≡ b
unfolding initial_bot_state is_active
initial_bot_state-is_active true = refl
initial_bot_state-is_active false = refl

module _ {D : Type 0} ⦃dec : Decimal D⦄ (x : Surroundings D) where
  -- The tables when the pending migrations have been applied.
  abbrev pub after_migrations : Stored D
  after_migrations = tables_after x.drivers.up (before_migrations x)

  -- The configuration is usable, the pool has ten connections or more, the bot runs unless
  -- BOT_AUTOSTART says false, and the stream wants exactly the active symbols of the watchlist as the
  -- migrations left it.
  pub record IsReady (s : Started D) : Type 0 where
    pub configured : IsUsable x.parse_decimal x.getenv s.config
    pub connections : 10 ≤ s.max_conns
    pub bot : is_active s.server.bot ≡ not (str_eq (x.getenv "BOT_AUTOSTART") "false")
    pub wanted :
        (t : String)
        → s.server.feed.supervisor.symbols t ≡ is_active_flag (listing after_migrations.watchlist t)

  or_exit-success :
      {E A : Type 0} (f : E → Exit) (m : Fallible E A) (a : A)
      → or_exit f m ≡ success a
      → m ≡ success a
  or_exit-success f (success b) a e = cc
  or_exit-success f (failure b) a e = cc

  -- The pool's size.
  record IsRoomy (n : ℕ) : Type 0 where
    pub room : 10 ≤ n

  raised_max_conns-le : (n : ℕ) → 10 ≤ raised_max_conns n
  unfolding raised_max_conns
  raised_max_conns-le n = ground arith

  new_pool-IsRoomy : (url : String) → OnSuccess IsRoomy (new_pool x.drivers url)
  unfolding new_pool
  new_pool-IsRoomy url =
      OnSuccess-or_fail IsRoomy (x.drivers.parse_config url) parse_failed _ λ n parsed.
        OnSuccess-guard IsRoomy (x.drivers.creates (raised_max_conns n)) create_failed _ λ created.
          OnSuccess-guard IsRoomy x.drivers.pings ping_failed (success (raised_max_conns n))
            λ pinged. record { room = raised_max_conns-le n }

  fetched_all :
      (fails : Bool) (watchlists : List String) (rows : Rows)
      → get_all_active fails rows ≡ some watchlists
      → (t : String) → Distinct rows
      → is_in t watchlists ≡ is_active_flag (listing rows t)
  unfolding get_all_active get_active_rows
  fetched_all true watchlists rows e t d = cc
  fetched_all false watchlists rows e t d =
      ap (is_in t) (sym (some-injective _ _ e)) ∙ active_rows-listing t rows d

  -- The symbols that a supervisor starts with.
  started_symbols :
      (fails : Bool) (watchlists : List String) (rows : Rows)
      → Distinct rows
      → get_all_active fails rows ≡ some watchlists
      → (t : String)
      → (new_stream_supervisor watchlists).symbols t ≡ is_active_flag (listing rows t)
  started_symbols fails watchlists rows d e t =
      ground
        (arith, add_all-is_in t watchlists (λ u. false), fetched_all fails watchlists rows e t d)

  started-IsReady :
      (cfg : Config D) (n : ℕ) (tables : Stored D) (watchlists : List String)
      → Distinct tables.watchlist
      → tables ≡ after_migrations
      → IsUsable x.parse_decimal x.getenv cfg
      → IsRoomy n
      → get_all_active x.watchlist_fails tables.watchlist ≡ some watchlists
      → IsReady (started x cfg n tables watchlists)
  unfolding started new_feed
  started-IsReady cfg n tables watchlists d migrated usable roomy fetched = record {
    configured = usable;
    connections = roomy.room;
    bot = initial_bot_state-is_active cfg.bot_auto_start ∙ usable.automatic;
    wanted = λ t.
        started_symbols x.watchlist_fails watchlists tables.watchlist d fetched t
        ∙ ap (λ (y : Stored D). is_active_flag (listing y.watchlist t)) migrated;
  }

  start_up-OnSuccess : Distinct after_migrations.watchlist → OnSuccess IsReady (start_up x)
  unfolding start_up
  start_up-OnSuccess d = OnSuccess-bind IsReady _ _ λ (cfg : Config D) loads.
      OnSuccess-bind IsReady _ _ λ n pools.
        OnSuccess-bind IsReady
          (or_exit bad_database (migrate x.drivers cfg.database_url (before_migrations x))) _
          λ (tables : Stored D) migrates.
            OnSuccess-or_fail IsReady _ no_watchlists _ λ watchlists fetched.
              let migrated : tables ≡ after_migrations =
                migrate-tables_after x.drivers cfg.database_url (before_migrations x) tables
                  (or_exit-success bad_database _ tables migrates) in
              started-IsReady cfg n tables watchlists
                (subst (λ (y : Stored D). Distinct y.watchlist) (sym migrated) d) migrated
                (load-IsUsable x.parse_decimal x.getenv x.scan_int cfg
                  (or_exit-success bad_config _ cfg loads))
                (OnSuccess-success IsRoomy _ n (new_pool-IsRoomy cfg.database_url)
                  (or_exit-success bad_database _ n pools))
                fetched

  -- When every step of the start succeeds and the watchlist's table has distinct symbols after the
  -- migrations, the configuration is usable, the pool has ten connections or more, the bot runs unless
  -- BOT_AUTOSTART says false, and the stream wants exactly the symbols that are active in the watchlist
  -- as the migrations left it.
  pub start_up-IsReady :
      (s : Started D) → Distinct after_migrations.watchlist → start_up x ≡ success s → IsReady s
  start_up-IsReady s d e = OnSuccess-success IsReady (start_up x) s (start_up-OnSuccess d) e

  -- What does not depend on the watchlist.
  pub record IsWaiting (s : Started D) : Type 0 where
    pub by_setting : is_active s.server.bot ≡ not (str_eq (x.getenv "BOT_AUTOSTART") "false")
    pub no_bar : s.server.in_flight ≡ []
    pub orders : s.server.world.orders ≡ x.world.orders

  started-IsWaiting :
      (cfg : Config D) (n : ℕ) (tables : Stored D) (watchlists : List String)
      → IsUsable x.parse_decimal x.getenv cfg
      → IsWaiting (started x cfg n tables watchlists)
  unfolding started
  started-IsWaiting cfg n tables watchlists usable = record {
    by_setting = initial_bot_state-is_active cfg.bot_auto_start ∙ usable.automatic;
    no_bar = refl;
    orders = refl;
  }

  start_up-waits : OnSuccess IsWaiting (start_up x)
  unfolding start_up
  start_up-waits = OnSuccess-bind IsWaiting _ _ λ (cfg : Config D) loads.
      OnSuccess-bind IsWaiting (or_exit bad_database (new_pool x.drivers cfg.database_url)) _
        λ n pools.
          OnSuccess-bind IsWaiting
            (or_exit bad_database (migrate x.drivers cfg.database_url (before_migrations x))) _
            λ (tables : Stored D) migrates.
              OnSuccess-or_fail IsWaiting (get_all_active x.watchlist_fails tables.watchlist)
                no_watchlists (λ watchlists. success (started x cfg n tables watchlists))
                λ watchlists fetched. started-IsWaiting cfg n tables watchlists (
                  load-IsUsable x.parse_decimal x.getenv x.scan_int cfg
                    (or_exit-success bad_config _ cfg loads))

  pub start_up-IsWaiting : (s : Started D) → start_up x ≡ success s → IsWaiting s
  start_up-IsWaiting s e = OnSuccess-success IsWaiting (start_up x) s start_up-waits e
