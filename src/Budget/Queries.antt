-- ===== src/Budget/Queries.antt =====
-- The repository's calls on sound tables.
use outbound_api.Prelude.{ℕ, ◌+◌, ◌≡◌, refl, some, List, arith, ◌==◌}
use outbound_api.Prelude.Table.{bit, lookup, lookup-append}
use outbound_api.Model.{Trade, AccountTransfer}
use outbound_api.Repository.Store.{Env, World}
use outbound_api.Repository.Outcome.{Ends, Ends-weaken, Holds}
use outbound_api.Repository.Trades.{stored, overwrite, create_trade, update_trade}
use outbound_api.Repository.Transfers.{
  create_transfer, decrement_remaining_trades, increment_remaining_trades,
}
use outbound_api.Repository.Effects.{
  SameTables-Holds, create_trade_effect, update_trade_effect, decrement_effect, increment_effect,
  create_transfer_effect,
}
use outbound_api.Repository.Alike.{trade_id}
use outbound_api.Budget.Tables.{
  holds, Sound, insert-Sound, update-Sound, take-Sound, give-Sound, append-Sound,
}

module _ {D : Type 0} (env : Env D) where
  module _ (a total : ℕ) (w : World D) where
    pub create_trade-Sound :
        (t : Trade D)
        → Holds (Sound a total) w
        → Ends
            (λ _. Holds λ ts fs.
              Sound a (total + bit (holds a t)) ts fs
              × (lookup trade_id t.id ts ≡ some (stored env t)))
            (Holds (Sound a total))
            (create_trade env t w)
    create_trade-Sound t s =
        Ends-weaken (create_trade env t w) (create_trade_effect env t w)
          (λ _ v (fresh, added, same).
            rw (added, same)
              (
                insert-Sound a total w.trades w.transfers (stored env t) s fresh,
                rw (lookup-append trade_id t.id w.trades (stored env t) fresh) (ground arith),
              ))
          (λ v same. SameTables-Holds (Sound a total) w v same s)

    pub update_trade-Sound :
        (t old : Trade D) (total' : ℕ)
        → Holds (Sound a total) w
        → lookup trade_id t.id w.trades ≡ some old
        → total + bit (holds a t) ≡ total' + bit (holds a old)
        → Ends (λ _. Holds (Sound a total')) (Holds (Sound a total)) (update_trade env t w)
    update_trade-Sound t old total' s row e =
        Ends-weaken (update_trade env t w) (update_trade_effect env t w)
          (λ _ v (changed, same).
            rw (changed, same)
              (update-Sound a total w.trades w.transfers t.id (overwrite env t) old total'
                (λ r. refl) s row e))
          (λ v same. SameTables-Holds (Sound a total) w v same s)

    pub decrement-Sound :
        (b : ℕ) (R : List (Trade D) → Type 0)
        → Holds (Sound a (total + bit (b == a))) w
        → R w.trades
        → Ends
            (λ _. Holds λ ts fs. Sound a total ts fs × R ts)
            (Holds (Sound a (total + bit (b == a))))
            (decrement_remaining_trades env b w)
    decrement-Sound b R s r =
        Ends-weaken (decrement_remaining_trades env b w) (decrement_effect env b w)
          (λ _ v (free, same, changed).
            rw (changed, same)
              (take-Sound a total b (env.now w.tick) w.trades w.transfers s free, r))
          (λ v same. SameTables-Holds (Sound a (total + bit (b == a))) w v same s)

    pub increment-Sound :
        (b : ℕ)
        → Holds (Sound a total) w
        → Ends
            (λ _. Holds (Sound a (total + bit (b == a))))
            (Holds (Sound a total))
            (increment_remaining_trades env b w)
    increment-Sound b s =
        Ends-weaken (increment_remaining_trades env b w) (increment_effect env b w)
          (λ _ v (known, same, changed).
            rw (changed, same) (give-Sound a total b (env.now w.tick) w.trades w.transfers s))
          (λ v same. SameTables-Holds (Sound a total) w v same s)

    pub create_transfer-Sound :
        (t : AccountTransfer D)
        → Holds (Sound a total) w
        → Ends (λ _. Holds (Sound a total)) (Holds (Sound a total)) (create_transfer env t w)
    create_transfer-Sound t s =
        Ends-weaken (create_transfer env t w) (create_transfer_effect env t w)
          (λ _ v (fresh, same, added).
            rw (added, same) (append-Sound a total w.trades w.transfers _ s fresh))
          (λ v same. SameTables-Holds (Sound a total) w v same s)
