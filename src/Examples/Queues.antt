-- ===== src/Examples/Queues.antt =====
-- A watchlist of three calls, and two buys at the same time.
use outbound_api.Prelude.{
  ◌+◌, ◌≡◌, ◌≢◌, refl, Bool, true, false, Option, none, some, String, List, [], ◌∷◌, ◌++◌, arith,
  length,
}
use outbound_api.Prelude.Integers.{ℤ}
use outbound_api.Model.{Trade, Side, Status}
use outbound_api.Repository.Trades.{is_open_position, has_sell_child}
use outbound_api.Watchlist.{Rows, get_all_active}
use outbound_api.Watchlist.Contents.{Op, creates, deactivates, run, listing, replay}
use outbound_api.Watchlist.Refine.{answers, is_active_flag, run_refines}
use outbound_api.Service.Trade.Concurrent.{
  Worker, first, second, checking, committed, Database, begun, Reach, stays, then_step,
  finds_position, rolled_back, moved, set_phase,
}
use outbound_api.Service.Trade.Concurrent.Slots.{commits_of, slots_kept}
use outbound_api.Service.Trade.Concurrent.Positions.{IsNewBuy, two_positions, late_buy_refused}
use outbound_api.Examples.Entries.{filled_buy}

abbrev any_text : String → Option String
any_text t = some t

abbrev one_row : Rows
one_row = record { symbol = "AAPL"; is_active = true } ∷ []

-- The second call fails.
abbrev calls : List (Bool × Op)
calls = (false, creates "MSFT") ∷ (true, deactivates "MSFT") ∷ (false, deactivates "AAPL") ∷ []

run_refines_example :
    answers "MSFT" (get_all_active false (run any_text calls one_row))
    ≡ some (is_active_flag (replay any_text calls (listing one_row) "MSFT"))
run_refines_example = run_refines any_text calls one_row (refl, tt) "MSFT"

-- Two pending buys of one symbol.
abbrev pending_buy : Worker → Trade ℤ
pending_buy first = record filled_buy { alpaca_order_id = none; status = Status.pending }
pending_buy second = record filled_buy { id = 2; alpaca_order_id = none; status = Status.pending }

new_buys : (i : Worker) → IsNewBuy "AAPL" [] (pending_buy i)
unfolding has_sell_child
new_buys first = record { of_symbol = refl; buys = refl; active = refl; unsold = refl }
new_buys second = record { of_symbol = refl; buys = refl; active = refl; unsold = refl }

two_positions_example :
    (s : Database ℤ) × Reach pending_buy (begun [] 2) s
    × ((i : Worker) → is_open_position s.trades "AAPL" (pending_buy i) ≡ true)
    × (s.trades ≡ ([] ++ (pending_buy first ∷ [])) ++ (pending_buy second ∷ []))
two_positions_example = two_positions "AAPL" pending_buy [] 2 new_buys refl (omega arith)

-- The state in which both have committed.
both_done :
    (s : Database ℤ) × Reach pending_buy (begun [] 2) s
    × ((i : Worker) → is_open_position s.trades "AAPL" (pending_buy i) ≡ true)
    × (s.trades ≡ ([] ++ (pending_buy first ∷ [])) ++ (pending_buy second ∷ []))
both_done = two_positions "AAPL" pending_buy [] 2 new_buys refl (omega arith)

slots_kept_example :
    (both_done.0.remaining + commits_of both_done.0 ≡ 2)
    × (length both_done.0.trades ≡ 0 + commits_of both_done.0)
slots_kept_example = slots_kept pending_buy [] 2 both_done.1

abbrev first_done : Database ℤ
first_done = record {
  trades = pending_buy first ∷ [];
  remaining = 1;
  phase = set_phase first committed (λ i. checking);
}

late_buy_refused_example : (moved second rolled_back first_done).phase second ≢ committed
unfolding is_open_position has_sell_child
late_buy_refused_example =
    late_buy_refused "AAPL" pending_buy of_symbol are_buys {s = first_done} refl refl
      (then_step stays (finds_position second refl refl))
  where
    of_symbol : (i : Worker) → (pending_buy i).symbol ≡ "AAPL"
    of_symbol i = (new_buys i).of_symbol

    are_buys : (i : Worker) → (pending_buy i).side ≡ Side.buy
    are_buys i = (new_buys i).buys
