-- ===== src/Examples/Trading.antt =====
-- The funding budget over a day of trading.
use outbound_api.Prelude.{ℕ, ◌+◌, ◌≡◌, refl, some}
use outbound_api.Decimal.Whole.{whole_decimal}
use outbound_api.Budget.Tables.{held, slots}
use outbound_api.Budget.Session.{run, budget_conserved}
use outbound_api.Examples.Data.{quiet, params, start, day}

budget_conserved_example :
    (k : ℕ) × (slots 7 (run quiet params day start).transfers ≡ some k)
    × (k + held 7 (run quiet params day start).trades ≡ 2 + held 7 start.trades)
budget_conserved_example = budget_conserved quiet params 7 2 day start (tt) (refl, tt) refl
