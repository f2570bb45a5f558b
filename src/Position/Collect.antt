-- ===== src/Position/Collect.antt =====
-- The transaction of `EvaluateAndExecuteExits`: its sells are pending, and their buys count as open.
use outbound_api.Prelude.{
  ℕ, ◌≡◌, refl, ap, String, List, [], ◌∷◌, ◌++◌, arith, any-append, All, ◌==◌, Option-cases, inl,
  inr,
}
use outbound_api.Decimal.{Decimal}
use outbound_api.Model.{Trade, Signal}
use outbound_api.Repository.Store.{Env, World, M, ◌>>=◌, new_uuid, time_now, pure}
use outbound_api.Repository.Outcome.{Ends, Ends-weaken, Ends-bind, Holds, Tables}
use outbound_api.Repository.Trades.{create_trade, get_open_buy_trades_by_symbol}
use outbound_api.Repository.Signals.{create_signal}
use outbound_api.Repository.Reads.{
  Reads, new_uuid-Reads, time_now-Reads, create_signal-Reads, get_open_buy_trades-Reads,
}
use outbound_api.Repository.Keeps.{Reads-keep}
use outbound_api.Service.Trade.Sell.{sell_trade_of}
use outbound_api.Service.Trade.Exits.{
  ExitPair, exit_reason, exit_signal, insert_exit, create_exit, open_exit, add_exit, collect_exits,
  exit_transaction,
}
use outbound_api.Tracking.Collect.{sells}
use outbound_api.Position.Rows.{pending}
use outbound_api.Position.Tables.{Single, Stored, Stored-Single, Single-Stored, reorder-Stored}
use outbound_api.Position.Writes.{create_sell-Stored}

abbrev pub ids : {D : Type 0} → List (ExitPair D) → List ℕ
ids [] = []
ids (p ∷ ps) = p.sell_trade.id ∷ ids ps

All-swap :
    {A : Type 0} (P : A → Type 0) (x : A) (xs ys : List A)
    → All P (xs ++ (x ∷ ys))
    → All P (x ∷ (xs ++ ys))
All-swap P x [] ys h = h
All-swap P x (y ∷ xs) ys h = let (here, rest) = All-swap P x xs ys h.1 in (here, (h.0, rest))

pending-swap :
    (k : ℕ) (ks js : List ℕ) (id : ℕ) → pending (ks ++ (k ∷ js)) id ≡ pending (k ∷ (ks ++ js)) id
pending-swap k ks js id =
    let left = any-append (λ j. j == id) ks (k ∷ js) in
    let right = any-append (λ j. j == id) ks js in ground arith

append-nil : {A : Type 0} (xs : List A) → xs ++ [] ≡ xs
append-nil [] = refl
append-nil (x ∷ xs) = ap (λ ys. x ∷ ys) (append-nil xs)

module _ {D : Type 0} ⦃dec : Decimal D⦄ (symbol : String) (env : Env D) where
  -- The sells of the exits are there, and pending.
  abbrev Collected : List ℕ → List (Trade D) → List (ExitPair D) → Tables D
  Collected ks js ps = Stored symbol (ids ps ++ ks) (sells ps ++ js)

  reading :
      {A : Type 0} (T : Tables D) (m : M D A) (w : World D)
      → Reads env m
      → Holds T w
      → Ends (λ _. Holds T) (λ _. Unit) (m w)
  reading T m w reads s = Ends-weaken _ (Reads-keep env T m w reads s) (λ _ _ h. h) (λ _ _. tt)

  open_exit-Stored :
      (ks : List ℕ) (js : List (Trade D)) (price : D) (reason : String) (t : Trade D) (w : World D)
      → Holds (Stored symbol ks js) w
      → Ends
          (λ p. Holds (Stored symbol (p.sell_trade.id ∷ ks) (p.sell_trade ∷ js)))
          (λ _. Unit)
          (open_exit env price reason t w)
  unfolding open_exit create_exit insert_exit
  open_exit-Stored ks js price reason t w s =
      let T : Tables D = Stored symbol ks js in
      Ends-bind (new_uuid env) (λ id. time_now env >>= made id) w
        (reading T (new_uuid env) w (new_uuid-Reads env) s)
        λ id v s.
          Ends-bind (time_now env) (made id) v (reading T (time_now env) v (time_now-Reads env) s)
            λ at u s.
              let signal : Signal D = exit_signal id price reason t at in
              Ends-bind (create_signal env signal) (λ _. new_uuid env >>= fresh signal) u
                (reading T (create_signal env signal) u (create_signal-Reads env signal) s)
                λ _ x s.
                  Ends-bind (new_uuid env) (fresh signal) x
                    (reading T (new_uuid env) x (new_uuid-Reads env) s)
                    λ sell y s.
                      Ends-bind (create_trade env (pair signal sell).sell_trade)
                        (λ _. pure (pair signal sell)) y
                        (Ends-weaken _
                          (create_sell-Stored symbol env (pair signal sell).sell_trade ks js y refl
                            s)
                          (λ _ _ h. h) (λ _ _. tt))
                        λ _ z h. record { outcome = h }
    where
      pair : Signal D → ℕ → ExitPair D
      pair signal id = record { signal = signal; sell_trade = sell_trade_of id t signal price }

      fresh : Signal D → ℕ → M D (ExitPair D)
      fresh signal id = insert_exit env (pair signal id)

      made : ℕ → ℕ → M D (ExitPair D)
      made id at = create_exit env t price (exit_signal id price reason t at)

  collect_exits-Collected :
      (ks : List ℕ) (js : List (Trade D)) (price : D) (trades : List (Trade D)) (w : World D)
      → Holds (Stored symbol ks js) w
      → Ends (λ ps. Holds (Collected ks js ps)) (λ _. Unit) (collect_exits env price trades w)
  unfolding collect_exits
  collect_exits-Collected ks js price [] w s = record { outcome = s }
  collect_exits-Collected ks js price (t ∷ trades) w s = elim (Option-cases (exit_reason price t)) [
    | inl holds ↦ rw holds (collect_exits-Collected ks js price trades w s)
    | inr (reason, exits) ↦ rw exits (
        Ends-bind (open_exit env price reason t) (add_exit env (collect_exits env price trades)) w
          (open_exit-Stored ks js price reason t w s)
          λ p v s'.
            Ends-bind (collect_exits env price trades) (λ rest. pure (p ∷ rest)) v
              (collect_exits-Collected (p.sell_trade.id ∷ ks) (p.sell_trade ∷ js) price trades v s')
              λ ps u h. record {
                outcome =
                    reorder-Stored symbol _ (ids (p ∷ ps) ++ ks) _ (sells (p ∷ ps) ++ js) u.trades
                      u.transfers (pending-swap p.sell_trade.id (ids ps) ks)
                      (λ v. All-swap _ p.sell_trade (sells ps) js) h;
              })
  ]

  pub exit_transaction-Collected :
      (y : String) (price : D) (w : World D)
      → Holds (Single symbol [] []) w
      → Ends
          (λ ps. Holds (Single symbol (ids ps) (sells ps)))
          (λ _. Unit)
          (exit_transaction env y price w)
  unfolding exit_transaction
  exit_transaction-Collected y price w s =
      Ends-bind (get_open_buy_trades_by_symbol env y) (collect_exits env price) w
        (reading (Single symbol [] []) (get_open_buy_trades_by_symbol env y) w
          (get_open_buy_trades-Reads env y) s)
        λ trades v s'.
          Ends-weaken _
            (collect_exits-Collected [] [] price trades v
              (Single-Stored symbol [] [] v.trades v.transfers s'))
            (λ ps u h.
              Stored-Single symbol (ids ps) (sells ps) u.trades u.transfers
                (rw (← append-nil (ids ps), ← append-nil (sells ps)) h))
            (λ _ _. tt)
