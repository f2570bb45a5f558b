-- ===== src/Watchlist.antt =====
-- internal/repository/watchlist_repository.go and internal/service/watchlist_service.go, which passes
-- its calls on, over the table `watchlists` of migrations/. A statement fails as `fails` says, and then
-- changes nothing. `column` is what a VARCHAR(10) column holds of a text, `none` where the database
-- refuses it.
pub mod Contents
pub mod Refine
use outbound_api.Prelude.{
  Bool, true, false, ◌||◌, Option, none, some, String, str_eq, List, [], ◌∷◌, ◌++◌, map, filter,
  any, if◌then◌else◌,
}

pub record Watchlist : Type 0 where
  pub symbol : String
  pub is_active : Bool

abbrev pub Rows : Type 0
Rows = List Watchlist

-- The rows that a symbol is the key of.
abbrev pub has_symbol : String → Rows → Bool
has_symbol s rows = any (λ r. str_eq r.symbol s) rows

-- UPDATE watchlists SET is_active = b WHERE symbol = s
abbrev pub set_active : Bool → String → Rows → Rows
set_active b s [] = []
set_active b s (r ∷ rows) =
    (if str_eq r.symbol s then record r { is_active = b } else r) ∷ set_active b s rows

-- INSERT INTO watchlists (symbol) VALUES (s) ON CONFLICT DO NOTHING, with `is_active DEFAULT TRUE`.
abbrev pub insert_symbol : String → Rows → Rows
insert_symbol s rows =
    if has_symbol s rows then rows else rows ++ (record { symbol = s; is_active = true } ∷ [])

-- Whether the call returns without an error, and the table.
abbrev pub exec : Bool → Option Rows → Rows → Bool × Rows
exec true result rows = (false, rows)
exec false none rows = (false, rows)
exec false (some result) rows = (true, result)

abbrev pub insert_column : Option String → Rows → Option Rows
insert_column none rows = none
insert_column (some s) rows = some (insert_symbol s rows)

unfoldable pub create : (String → Option String) → Bool → String → Rows → Bool × Rows
create column fails symbol rows = exec fails (insert_column (column symbol) rows) rows

unfoldable pub activate : Bool → String → Rows → Bool × Rows
activate fails symbol rows = exec fails (some (set_active true symbol rows)) rows

unfoldable pub deactivate : Bool → String → Rows → Bool × Rows
deactivate fails symbol rows = exec fails (some (set_active false symbol rows)) rows

-- The repository's SELECT symbol, is_active … WHERE is_active = TRUE.
unfoldable pub get_active_rows : Bool → Rows → Option Rows
get_active_rows true rows = none
get_active_rows false rows = some (filter (λ r. r.is_active) rows)

abbrev pub symbols_of : Option Rows → Option (List String)
symbols_of none = none
symbols_of (some rows) = some (map (λ r. r.symbol) rows)

-- `GetAllActive` of the service; `none` is an error.
unfoldable pub get_all_active : Bool → Rows → Option (List String)
unfolding get_active_rows
get_all_active fails rows = symbols_of (get_active_rows fails rows)
