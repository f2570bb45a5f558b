-- ===== src/Budget/Session.antt =====
-- Any sequence of the operations that change trades and transfers, each run to its end, with every
-- failure that the environment chooses.
use outbound_api.Prelude.{ℕ, ◌+◌, ◌≡◌, refl, Option, none, some, String, List, [], ◌∷◌, arith}
use outbound_api.Prelude.Table.{Unique}
use outbound_api.Decimal.{Decimal}
use outbound_api.Model.{Trade, Signal, AccountTransfer, Status}
use outbound_api.Repository.Store.{Env, World}
use outbound_api.Repository.Outcome.{Ends_state, Holds}
use outbound_api.Repository.Transfers.{create_transfer}
use outbound_api.Repository.Alike.{trade_id}
use outbound_api.Budget.Tables.{transfer_id, held, slots, Adds, Sound}
use outbound_api.Budget.Queries.{create_transfer-Sound}
use outbound_api.Budget.Buy.{execute_buy_trade-Sound}
use outbound_api.Budget.Exits.{evaluate_and_execute_exits-Sound}
use outbound_api.Budget.Sell.{execute_sell_trade-Sound}
use outbound_api.Budget.Bars.{live_evaluate_bar-Sound}
use outbound_api.Indicator.Cache.{IndicatorCache}
use outbound_api.Service.Signal.{Provider}
use outbound_api.Strategy.Live.{BarEvent, live_evaluate_bar}
use outbound_api.Budget.Updates.{apply_trade_updates-Sound}
use outbound_api.Service.Trade.Sizing.{RiskParams}
use outbound_api.Service.Trade.Buy.{execute_buy_trade}
use outbound_api.Service.Trade.Sell.{execute_sell_trade}
use outbound_api.Service.Trade.Exits.{evaluate_and_execute_exits}
use outbound_api.Service.Trade.Updates.{TradeUpdate, apply_trade_updates}

pub data Op (D : Type 0) : Type 0 where
  fund : AccountTransfer D → Op D
  buy : Signal D → Option (AccountTransfer D) → Op D
  sell : Signal D → Trade D → Op D
  exits : String → D → Op D
  update : TradeUpdate D → Status → Op D
  bar : Provider → IndicatorCache D → BarEvent D → Op D

pub Adds-of : (h n : ℕ) (o : Option ℕ) → o ≡ some n → Adds h (n + h) o
Adds-of h n none e = cc
Adds-of h n (some k) e = ground arith

pub Adds-out :
    (h total : ℕ) (o : Option ℕ) → Adds h total o → (k : ℕ) × (o ≡ some k) × (k + h ≡ total)
Adds-out h total none s = absurd s
Adds-out h total (some k) s = (k, refl, s)

module _ {D : Type 0} ⦃dec : Decimal D⦄ (env : Env D) (cfg : RiskParams D) where
  -- The world after one operation, whatever it returns.
  unfoldable pub step : Op D → World D → World D
  step (Op.fund t) w = (create_transfer env t w).1
  step (Op.buy signal account) w = (execute_buy_trade env cfg signal account w).1
  step (Op.sell signal parent) w = (execute_sell_trade env signal parent w).1
  step (Op.exits symbol price) w = (evaluate_and_execute_exits env symbol price w).1
  step (Op.update u status) w = (apply_trade_updates env cfg u status w).1
  step (Op.bar provider cache event) w = (live_evaluate_bar env cfg provider cache event w).1

  unfoldable pub run : List (Op D) → World D → World D
  run [] w = w
  run (op ∷ ops) w = run ops (step op w)

  step-Sound :
      (a total : ℕ) (op : Op D) (w : World D)
      → Holds (Sound a total) w
      → Holds (Sound a total) (step op w)
  unfolding step
  step-Sound a total (Op.fund t) w s =
      Ends_state (Holds (Sound a total)) _ (create_transfer-Sound env a total w t s)
  step-Sound a total (Op.buy signal account) w s =
      Ends_state (Holds (Sound a total)) _
        (execute_buy_trade-Sound env cfg a total signal account w s)
  step-Sound a total (Op.sell signal parent) w s =
      Ends_state (Holds (Sound a total)) _ (execute_sell_trade-Sound env a total signal parent w s)
  step-Sound a total (Op.exits symbol price) w s =
      Ends_state (Holds (Sound a total)) _
        (evaluate_and_execute_exits-Sound env a total symbol price w s)
  step-Sound a total (Op.bar provider cache event) w s =
      Ends_state (Holds (Sound a total)) _
        (live_evaluate_bar-Sound env cfg a total provider cache event w s)
  step-Sound a total (Op.update u status) w s =
      Ends_state (Holds (Sound a total)) _ (apply_trade_updates-Sound env cfg a total u status w s)

  run-Sound :
      (a total : ℕ) (ops : List (Op D)) (w : World D)
      → Holds (Sound a total) w
      → Holds (Sound a total) (run ops w)
  unfolding run
  run-Sound a total [] w s = s
  run-Sound a total (op ∷ ops) w s = run-Sound a total ops (step op w) (step-Sound a total op w s)

  -- Over any sequence of fundings, buys, sells, exits, broker updates and bars of the live
  -- coordinator, with any failures of the database, the broker and the news, the slots left on a
  -- funding transfer and the buys on it that are not void add up to what they were. The start has
  -- unique primary keys and a transfer with a counter.
  pub budget_conserved :
      (a n : ℕ) (ops : List (Op D)) (w : World D)
      → Unique trade_id w.trades
      → Unique transfer_id w.transfers
      → slots a w.transfers ≡ some n
      → (k : ℕ) × (slots a (run ops w).transfers ≡ some k)
        × (k + held a (run ops w).trades ≡ n + held a w.trades)
  budget_conserved a n ops w ut uf counter =
      let start : Holds (Sound a (n + held a w.trades)) w = record {
        unique_trades = ut;
        unique_transfers = uf;
        adds = Adds-of (held a w.trades) n (slots a w.transfers) counter;
      } in
      let end = run-Sound a (n + held a w.trades) ops w start in
      Adds-out (held a (run ops w).trades) (n + held a w.trades) (slots a (run ops w).transfers)
        end.adds
