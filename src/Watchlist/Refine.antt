-- ===== src/Watchlist/Refine.antt =====
-- The watchlist as its users see it: any calls, and then the active symbols.
use text.Mathlib.TextEquality.{eq_iff}
use outbound_api.Prelude.{
  ◌≡◌, refl, ap, ◌∙◌, Bool, true, false, Option, none, some, String, str_eq, List, [], ◌∷◌, map,
  filter, any, arith,
}
use outbound_api.Watchlist.{
  Rows, has_symbol, exec, insert_column, create, activate, deactivate, get_active_rows,
  get_all_active,
}
use outbound_api.Watchlist.Contents.{
  Op, creates, activates, deactivates, step, run, listing, listed_or_active, change, replay_step,
  replay, Distinct, set_active-listing, insert_symbol-listing, set_active-Distinct,
  insert_symbol-Distinct,
}

-- The call keeps the key, and the table reads as the function after the same call.
abbrev Follows : (String → Option String) → Bool × Op → Rows → Type 0
Follows column op rows =
    Distinct (step column op rows)
    × (listing (step column op rows) ≡ replay_step column op (listing rows))

create_refines :
    (new : Option String) (rows : Rows)
    → Distinct rows
    → Distinct (exec false (insert_column new rows) rows).1
      × (listing (exec false (insert_column new rows) rows).1
          ≡ change listed_or_active new (listing rows))
create_refines none rows d = (d, refl)
create_refines (some s) rows d =
    (insert_symbol-Distinct s rows d, λ i t. insert_symbol-listing s t rows i)

step-Follows :
    (column : String → Option String) (op : Bool × Op) (rows : Rows)
    → Distinct rows
    → Follows column op rows
unfolding step create activate deactivate
step-Follows column (true, creates s) rows d = (d, refl)
step-Follows column (true, activates s) rows d = (d, refl)
step-Follows column (true, deactivates s) rows d = (d, refl)
step-Follows column (false, creates s) rows d = create_refines (column s) rows d
step-Follows column (false, activates s) rows d =
    (set_active-Distinct true s rows d, λ i t. set_active-listing true s t rows i)
step-Follows column (false, deactivates s) rows d =
    (set_active-Distinct false s rows d, λ i t. set_active-listing false s t rows i)

run-listing :
    (column : String → Option String) (ops : List (Bool × Op)) (rows : Rows)
    → Distinct rows
    → Distinct (run column ops rows)
      × (listing (run column ops rows) ≡ replay column ops (listing rows))
unfolding run
run-listing column [] rows d = (d, refl)
run-listing column (op ∷ ops) rows d =
    let (kept, same) = step-Follows column op rows d in
    let (key, reads) = run-listing column ops (step column op rows) kept in
    (key, reads ∙ ap (replay column ops) same)

abbrev pub is_in : String → List String → Bool
is_in t symbols = any (λ s. str_eq s t) symbols

-- Whether an answer of `GetAllActive` has a symbol.
abbrev pub answers : String → Option (List String) → Option Bool
answers t none = none
answers t (some symbols) = some (is_in t symbols)

abbrev pub is_active_flag : Option Bool → Bool
is_active_flag none = false
is_active_flag (some b) = b

absent_not_active :
    (t : String) (rows : Rows)
    → has_symbol t rows ≡ false
    → is_in t (map (λ r. r.symbol) (filter (λ r. r.is_active) rows)) ≡ false
absent_not_active t [] h = refl
absent_not_active t (r ∷ rows) h = ground (arith, absent_not_active t rows)

moved_symbol :
    (r t : String) (rows : Rows)
    → str_eq r t ≡ true
    → has_symbol r rows ≡ false
    → has_symbol t rows ≡ false
moved_symbol r t rows h e = rw (← (eq_iff r t).0 h) e

pub active_rows-listing :
    (t : String) (rows : Rows)
    → Distinct rows
    → is_in t (map (λ r. r.symbol) (filter (λ r. r.is_active) rows))
      ≡ is_active_flag (listing rows t)
active_rows-listing t [] d = refl
active_rows-listing t (r ∷ rows) d = ground (
  arith,
  active_rows-listing t rows d.1,
  moved_symbol r.symbol t rows,
  absent_not_active t rows,
  d.0,
)

-- Any calls of the service on a table with distinct symbols, some of which the database fails,
-- refine the same calls on a function from symbols to flags: a new symbol becomes active, a listed
-- one keeps its flag, activating and deactivating set it only for a listed symbol, and afterwards
-- `GetAllActive` has exactly the symbols whose flag is set.
pub run_refines :
    (column : String → Option String) (ops : List (Bool × Op)) (rows : Rows)
    → Distinct rows
    → (t : String)
    → answers t (get_all_active false (run column ops rows))
      ≡ some (is_active_flag (replay column ops (listing rows) t))
unfolding get_all_active get_active_rows
run_refines column ops rows d t =
    let (key, reads) = run-listing column ops rows d in
    ap some (active_rows-listing t (run column ops rows) key ∙ ap (λ l. is_active_flag (l t)) reads)
