-- ===== src/Tracking/Collect.antt =====
-- The transaction of `EvaluateAndExecuteExits`: it has a row for the sell of every exit it collects.
use outbound_api.Prelude.{
  ℕ, ◌+◌, ◌≤◌, All, ◌≡◌, refl, String, List, [], ◌∷◌, arith, Option-cases, inl, inr,
}
use outbound_api.Prelude.Table.{bit}
use outbound_api.Decimal.{Decimal}
use outbound_api.Model.{Side, Trade, Signal, AccountTransfer}
use outbound_api.Repository.Store.{Env, World, M, ◌>>=◌, new_uuid, time_now, pure}
use outbound_api.Repository.Outcome.{Ends, Ends-weaken, Ends-bind, Tables, Holds}
use outbound_api.Repository.Trades.{create_trade, get_open_buy_trades_by_symbol}
use outbound_api.Repository.Signals.{create_signal}
use outbound_api.Repository.Reads.{
  Reads, new_uuid-Reads, time_now-Reads, create_signal-Reads, get_open_buy_trades-Reads,
}
use outbound_api.Repository.Keeps.{Reads-keep}
use outbound_api.Service.Trade.Sell.{sell_trade_of}
use outbound_api.Service.Trade.Exits.{
  ExitPair, exit_reason, exit_signal, insert_exit, create_exit, open_exit, add_exit, collect_exits,
  exit_transaction,
}
use outbound_api.Repository.Alike.{Alike}
use outbound_api.Tracking.Rows.{is_row, rows, Rows, Inserted, create_trade-Inserted}

abbrev pub sells : {D : Type 0} → List (ExitPair D) → List (Trade D)
sells [] = []
sells (p ∷ ps) = p.sell_trade ∷ sells ps

-- The order for the exit is one for its sell.
pub record IsExit {D : Type 0} (p : ExitPair D) : Type 0 where
  pub named : p.sell_trade.symbol ≡ p.signal.symbol
  pub sold : p.sell_trade.side ≡ Side.sell

abbrev pub AreExits : {D : Type 0} → List (ExitPair D) → Type 0
AreExits [] = Unit
AreExits (p ∷ ps) = IsExit p × AreExits ps

module _ {D : Type 0} ⦃dec : Decimal D⦄ (side : Side) (symbol : String) (env : Env D) where
  -- Rows at `js`, and at the sells of the collected exits.
  abbrev pub Collected : ℕ → List (Trade D) → List (ExitPair D) → Tables D
  Collected k js ps ts fs =
      Inserted side symbol (k + rows side symbol (sells ps)) (sells ps) ts fs
      × Inserted side symbol (k + rows side symbol (sells ps)) js ts fs
      × AreExits ps

  abbrev Opened : ℕ → List (Trade D) → ExitPair D → Tables D
  Opened k js p ts fs =
      Inserted side symbol (k + bit (is_row side symbol p.sell_trade)) (p.sell_trade ∷ js) ts fs
      × IsExit p

  reading :
      {A : Type 0} (k : ℕ) (js : List (Trade D)) (m : M D A) (w : World D)
      → Reads env m
      → Holds (Inserted side symbol k js) w
      → Ends (λ _. Holds (Inserted side symbol k js)) (λ _. Unit) (m w)
  reading k js m w reads s =
      Ends-weaken _ (Reads-keep env (Inserted side symbol k js) m w reads s) (λ _ _ h. h)
        (λ _ _. tt)

  fewer_Inserted :
      (k k' : ℕ) (js js' ts : List (Trade D)) (fs : List (AccountTransfer D))
      → k' ≤ k
      → All (Alike (is_row side symbol) ts) js'
      → Inserted side symbol k js ts fs
      → Inserted side symbol k' js' ts fs
  fewer_Inserted k k' js js' ts fs le here s =
      let enough = s.enough in record { unique = s.unique; enough = omega arith; here = here }

  create_exit-Opened :
      (k : ℕ) (js : List (Trade D)) (t : Trade D) (price : D) (signal : Signal D) (w : World D)
      → Holds (Inserted side symbol k js) w
      → Ends (λ p. Holds (Opened k js p)) (λ _. Unit) (create_exit env t price signal w)
  unfolding create_exit insert_exit
  create_exit-Opened k js t price signal w s =
      Ends-bind (create_signal env signal) (λ _. new_uuid env >>= fresh) w
        (reading k js (create_signal env signal) w (create_signal-Reads env signal) s)
        λ _ v s'.
          Ends-bind (new_uuid env) fresh v (reading k js (new_uuid env) v (new_uuid-Reads env) s')
            λ id u s''.
              Ends-bind (create_trade env (sell_trade_of id t signal price)) (λ _. pure (pair id)) u
                (Ends-weaken _
                  (create_trade-Inserted side symbol env k js (sell_trade_of id t signal price) u
                    s'')
                  (λ _ _ h. h) (λ _ _. tt))
                λ _ x h. record { outcome = (h, record { named = refl; sold = refl }) }
    where
      pair : ℕ → ExitPair D
      pair id = record { signal = signal; sell_trade = sell_trade_of id t signal price }

      fresh : ℕ → M D (ExitPair D)
      fresh id = insert_exit env (pair id)

  open_exit-Opened :
      (k : ℕ) (js : List (Trade D)) (price : D) (reason : String) (t : Trade D) (w : World D)
      → Holds (Inserted side symbol k js) w
      → Ends (λ p. Holds (Opened k js p)) (λ _. Unit) (open_exit env price reason t w)
  unfolding open_exit
  open_exit-Opened k js price reason t w s =
      Ends-bind (new_uuid env) (λ id. time_now env >>= made id) w
        (reading k js (new_uuid env) w (new_uuid-Reads env) s)
        λ id v s'.
          Ends-bind (time_now env) (made id) v
            (reading k js (time_now env) v (time_now-Reads env) s')
            λ at u s''. create_exit-Opened k js t price (exit_signal id price reason t at) u s''
    where
      made : ℕ → ℕ → M D (ExitPair D)
      made id at = create_exit env t price (exit_signal id price reason t at)

  collect_exits-Collected :
      (k : ℕ) (js : List (Trade D)) (price : D) (trades : List (Trade D)) (w : World D)
      → Holds (Inserted side symbol k js) w
      → Ends (λ ps. Holds (Collected k js ps)) (λ _. Unit) (collect_exits env price trades w)
  unfolding collect_exits
  collect_exits-Collected k js price [] w s = record {
    outcome = (
      fewer_Inserted k (k + 0) js [] w.trades w.transfers (omega arith) tt s,
      fewer_Inserted k (k + 0) js js w.trades w.transfers (omega arith) s.here s,
      tt,
    );
  }
  collect_exits-Collected k js price (t ∷ trades) w s = elim (Option-cases (exit_reason price t)) [
    | inl holds ↦ rw holds (collect_exits-Collected k js price trades w s)
    | inr (reason, exits) ↦ rw exits (
        Ends-bind (open_exit env price reason t) (add_exit env (collect_exits env price trades)) w
          (open_exit-Opened k js price reason t w s)
          λ p v (s', exit).
            let b : ℕ = bit (is_row side symbol p.sell_trade) in
            Ends-bind (collect_exits env price trades) (λ rest. pure (p ∷ rest)) v
              (collect_exits-Collected (k + b) (p.sell_trade ∷ js) price trades v s')
              λ ps u (mine, others, exits). record {
                outcome = (
                  fewer_Inserted (k + b + rows side symbol (sells ps))
                      (k + rows side symbol (sells (p ∷ ps))) (sells ps) (sells (p ∷ ps)) u.trades
                      u.transfers (ground arith) (others.here.0, mine.here) mine,
                  fewer_Inserted (k + b + rows side symbol (sells ps))
                      (k + rows side symbol (sells (p ∷ ps))) (p.sell_trade ∷ js) js u.trades
                      u.transfers (ground arith) others.here.1 others,
                  (exit, exits),
                );
              })
  ]

  pub exit_transaction-Collected :
      (k : ℕ) (y : String) (price : D) (w : World D)
      → Holds (Rows side symbol k []) w
      → Ends (λ ps. Holds (Collected k [] ps)) (λ _. Unit) (exit_transaction env y price w)
  unfolding exit_transaction
  exit_transaction-Collected k y price w s =
      Ends-bind (get_open_buy_trades_by_symbol env y) (collect_exits env price) w
        (reading k [] (get_open_buy_trades_by_symbol env y) w (get_open_buy_trades-Reads env y)
          (record { unique = s.unique; enough = s.enough; here = tt }))
        λ trades v s'. collect_exits-Collected k [] price trades v s'
