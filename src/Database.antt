-- ===== src/Database.antt =====
-- internal/database/database.go. What pgxpool and golang-migrate answer, and what the migrations that
-- are still to be applied do to the tables, is a record of parameters.
use outbound_api.Prelude.{ℕ, Bool, Option, String, List, ltb, if◌then◌else◌}
use outbound_api.Prelude.Fallible.{Fallible, success, failure, ◌>>=◌, ◌>>◌, or_fail, guard}
use outbound_api.Model.{Trade, Signal, AccountTransfer, ShadowExitDecision}
use outbound_api.Watchlist.{Rows}

-- The tables of the database.
pub record Stored (D : Type 0) : Type 0 where
  pub trades : List (Trade D)
  pub signals : List (Signal D)
  pub transfers : List (AccountTransfer D)
  pub decisions : List (ShadowExitDecision D)
  pub watchlist : Rows

-- What `Up` returns: nil, after the pending migrations have changed the tables, ErrNoChange or another
-- error.
pub data UpAnswer (D : Type 0) : Type 0 where
  applied : (Stored D → Stored D) → UpAnswer D
  no_change refused : UpAnswer D

-- `parse_config` gives the MaxConns of an address, which pgxpool keeps above 0, `creates` whether a pool of that size is made.
pub record Drivers (D : Type 0) : Type 0 where
  pub parse_config : String → Option ℕ
  pub creates : ℕ → Bool
  pub pings : Bool
  pub reads_source : Bool
  pub makes_instance : String → Bool
  pub up : UpAnswer D

pub data DatabaseError : Type 0 where
  parse_failed create_failed ping_failed : DatabaseError
  source_failed instance_failed apply_failed : DatabaseError

abbrev pub min_max_conns : ℕ
min_max_conns = 10

unfoldable pub raised_max_conns : ℕ → ℕ
raised_max_conns n = if ltb n min_max_conns then min_max_conns else n

-- `NewPool`, a pool being its MaxConns.
unfoldable pub new_pool : {D : Type 0} → Drivers D → String → Fallible DatabaseError ℕ
unfolding raised_max_conns
new_pool d url = do
  n ← or_fail (d.parse_config url) parse_failed
  guard (d.creates (raised_max_conns n)) create_failed
  guard d.pings ping_failed
  success (raised_max_conns n)

abbrev pub up_result : {D : Type 0} → UpAnswer D → Stored D → Fallible DatabaseError (Stored D)
up_result (applied change) tables = success (change tables)
up_result no_change tables = success tables
up_result refused tables = failure apply_failed

-- `Migrate`, with the tables that it leaves.
unfoldable pub migrate :
    {D : Type 0} → Drivers D → String → Stored D → Fallible DatabaseError (Stored D)
migrate d url tables = do
  guard d.reads_source source_failed
  guard (d.makes_instance url) instance_failed
  up_result d.up tables
