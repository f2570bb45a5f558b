-- ===== src/Budget/Exits/Collect.antt =====
-- The transaction of `EvaluateAndExecuteExits`: the exits that it collects are sells in the table.
use outbound_api.Prelude.{ℕ, ◌≡◌, refl, false, List, [], ◌∷◌, String, Option-cases, inl, inr}
use outbound_api.Decimal.{Decimal}
use outbound_api.Model.{Trade, Signal, is_buy}
use outbound_api.Repository.Store.{Env, World, M, new_uuid, time_now, ◌>>=◌, pure}
use outbound_api.Repository.Outcome.{Ends, Ends-weaken, Ends-bind, Tables, Holds}
use outbound_api.Repository.Trades.{create_trade, get_open_buy_trades_by_symbol}
use outbound_api.Repository.Signals.{create_signal}
use outbound_api.Repository.Reads.{
  new_uuid-Reads, time_now-Reads, create_signal-Reads, get_open_buy_trades-Reads,
}
use outbound_api.Budget.Tables.{Sound}
use outbound_api.Repository.Keeps.{Reads-keep}
use outbound_api.Budget.Sells.{SoundSells, create_sell-SoundSells}
use outbound_api.Service.Trade.Sell.{sell_trade_of}
use outbound_api.Service.Trade.Exits.{
  ExitPair, exit_reason, exit_signal, insert_exit, create_exit, open_exit, add_exit, collect_exits,
  exit_transaction,
}

abbrev pub exit_ids : {D : Type 0} → List (ExitPair D) → List ℕ
exit_ids [] = []
exit_ids (p ∷ ps) = p.sell_trade.id ∷ exit_ids ps

abbrev pub AreSells : {D : Type 0} → List (ExitPair D) → Type 0
AreSells [] = Unit
AreSells (p ∷ ps) = (is_buy p.sell_trade.side ≡ false) × AreSells ps

module _ {D : Type 0} ⦃dec : Decimal D⦄ (env : Env D) (a total : ℕ) where
  -- Sells at `js`, and at the sells of the collected exits.
  abbrev pub Collected : List ℕ → List (ExitPair D) → Tables D
  Collected js ps ts fs =
      SoundSells a total (exit_ids ps) ts fs × SoundSells a total js ts fs × AreSells ps

  abbrev Opened : List ℕ → ExitPair D → Tables D
  Opened js p ts fs =
      SoundSells a total (p.sell_trade.id ∷ js) ts fs × (is_buy p.sell_trade.side ≡ false)

  create_exit-SoundSells :
      (js : List ℕ) (t : Trade D) (price : D) (signal : Signal D) (w : World D)
      → Holds (SoundSells a total js) w
      → Ends (λ p. Holds (Opened js p)) (λ _. Unit) (create_exit env t price signal w)
  unfolding create_exit insert_exit
  create_exit-SoundSells js t price signal w s =
      Ends-bind (create_signal env signal) (λ _. new_uuid env >>= fresh) w
        (Ends-weaken _
          (Reads-keep env (SoundSells a total js) (create_signal env signal) w
            (create_signal-Reads env signal) s)
          (λ _ _ h. h) (λ _ _. tt))
        λ _ v s'.
          Ends-bind (new_uuid env) fresh v
            (Ends-weaken _
              (Reads-keep env (SoundSells a total js) (new_uuid env) v (new_uuid-Reads env) s')
              (λ _ _ h. h) (λ _ _. tt))
            λ id u s''.
              Ends-bind (create_trade env (sell_trade_of id t signal price)) (λ _. pure (pair id)) u
                (Ends-weaken _
                  (create_sell-SoundSells env a total js u (sell_trade_of id t signal price) refl
                    s'')
                  (λ _ _ h. h) (λ _ _. tt))
                λ _ x h. record { outcome = (h, refl) }
    where
      pair : ℕ → ExitPair D
      pair id = record { signal = signal; sell_trade = sell_trade_of id t signal price }

      fresh : ℕ → M D (ExitPair D)
      fresh id = insert_exit env (pair id)

  open_exit-SoundSells :
      (js : List ℕ) (price : D) (reason : String) (t : Trade D) (w : World D)
      → Holds (SoundSells a total js) w
      → Ends (λ p. Holds (Opened js p)) (λ _. Unit) (open_exit env price reason t w)
  unfolding open_exit
  open_exit-SoundSells js price reason t w s =
      Ends-bind (new_uuid env) (λ id. time_now env >>= made id) w
        (Ends-weaken _
          (Reads-keep env (SoundSells a total js) (new_uuid env) w (new_uuid-Reads env) s)
          (λ _ _ h. h) (λ _ _. tt))
        λ id v s'.
          Ends-bind (time_now env) (made id) v
            (Ends-weaken _
              (Reads-keep env (SoundSells a total js) (time_now env) v (time_now-Reads env) s')
              (λ _ _ h. h) (λ _ _. tt))
            λ at u s''. create_exit-SoundSells js t price (exit_signal id price reason t at) u s''
    where
      made : ℕ → ℕ → M D (ExitPair D)
      made id at = create_exit env t price (exit_signal id price reason t at)

  collect_exits-Collected :
      (js : List ℕ) (price : D) (trades : List (Trade D)) (w : World D)
      → Holds (SoundSells a total js) w
      → Ends (λ ps. Holds (Collected js ps)) (λ _. Unit) (collect_exits env price trades w)
  unfolding collect_exits
  collect_exits-Collected js price [] w s = record {
    outcome = (record { sound = s.sound; sells = tt }, s, tt);
  }
  collect_exits-Collected js price (t ∷ trades) w s = elim (Option-cases (exit_reason price t)) [
    | inl holds ↦ rw holds (collect_exits-Collected js price trades w s)
    | inr (reason, exits) ↦ rw exits (
        Ends-bind (open_exit env price reason t) (add_exit env (collect_exits env price trades)) w
          (open_exit-SoundSells js price reason t w s)
          λ p v (s', sell).
            Ends-bind (collect_exits env price trades) (λ rest. pure (p ∷ rest)) v
              (collect_exits-Collected (p.sell_trade.id ∷ js) price trades v s')
              λ ps u (mine, others, sells). record {
                outcome = (
                  record { sound = mine.sound; sells = (others.sells.0, mine.sells) },
                  record { sound = mine.sound; sells = others.sells.1 },
                  (sell, sells),
                );
              })
  ]

  pub exit_transaction-Collected :
      (symbol : String) (price : D) (w : World D)
      → Holds (Sound a total) w
      → Ends (λ ps. Holds (Collected [] ps)) (λ _. Unit) (exit_transaction env symbol price w)
  unfolding exit_transaction
  exit_transaction-Collected symbol price w s =
      Ends-bind (get_open_buy_trades_by_symbol env symbol) (collect_exits env price) w
        (Ends-weaken _
          (Reads-keep env (SoundSells a total []) (get_open_buy_trades_by_symbol env symbol) w
            (get_open_buy_trades-Reads env symbol) (record { sound = s; sells = tt }))
          (λ _ _ h. h) (λ _ _. tt))
        λ trades v s'. collect_exits-Collected [] price trades v s'
