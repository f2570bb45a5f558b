-- ===== src/Budget/Buy.antt =====
-- `ExecuteBuyTrade` keeps the budget: a buy takes one slot and holds it, and gives it back when
-- `PlaceOrder` returns an error. Every failure of the database on the way is covered.
use outbound_api.Prelude.{
  ℕ, ◌+◌, ◌-◌, ◌≤◌, ◌≡◌, refl, Bool, true, false, Option, none, some, arith, ◌==◌, Bool-cases,
  Option-cases, inl, inr, is_some_of, String,
}
use mathlib.Core.Path.{subst}
use outbound_api.Prelude.Table.{bit, lookup}
use outbound_api.Decimal.{Decimal}
use outbound_api.Model.{Trade, Signal, AccountTransfer, Status, is_buy}
use outbound_api.Repository.Store.{
  Env, World, Error, next_tick, place_order, best_effort, within_transaction, ◌>>=◌, new_uuid, pure,
  throw, no_remaining_slots, position_already_open,
}
use outbound_api.Repository.Outcome.{
  Ends, Ends-weaken, Ends-bind, Ends-best_effort, Ends-handled, Ends-within_transaction, Tables,
  Holds,
}
use outbound_api.Repository.Trades.{stored, update_trade, create_trade, has_open_position}
use outbound_api.Repository.Transfers.{has_slot, decrement_remaining_trades}
use outbound_api.Repository.Signals.{mark_executed}
use outbound_api.Repository.Effects.{SameTables-Holds}
use outbound_api.Repository.Reads.{
  place_order-Reads, new_uuid-Reads, mark_executed-Reads, has_open_position_effect,
}
use outbound_api.Repository.Alike.{trade_id}
use outbound_api.Budget.Tables.{holds, Sound, bit-le-total}
use outbound_api.Repository.Keeps.{Reads-keep}
use outbound_api.Budget.Queries.{
  create_trade-Sound, update_trade-Sound, decrement-Sound, increment-Sound,
}
use outbound_api.Service.Trade.Buy.{
  insert_buy, reserve_buy, cancel_buy, cancel_trade_and_restore_slot, settle_buy, abandon_buy,
  place_buy, buy_refused, commit_buy, open_buy, execute_buy_trade, buy_trade, buy_request,
  restore_account,
}
use outbound_api.Service.Trade.Sizing.{RiskParams, size_position}

-- A trade that is a new buy on transfer `b`.
pub record IsNewBuy {D : Type 0} (b : ℕ) (t : Trade D) : Type 0 where
  pub buys : is_buy t.side ≡ true
  pub starts : t.status ≡ Status.pending
  pub account : t.account_transfer_id ≡ some b

module _ {D : Type 0} (env : Env D) where
  pub restore_account-Sound :
      (a total : ℕ) (account : Option ℕ) (w : World D)
      → Holds (Sound a total) w
      → Ends
          (λ _. Holds (Sound a (total + bit (is_some_of a account))))
          (Holds (Sound a total))
          (restore_account env account w)
  restore_account-Sound a total none w s = record {
    outcome = subst (λ k. Holds (Sound a k) w) (omega arith) s;
  }
  restore_account-Sound a total (some b) w s = increment-Sound env a total w b s

  pub buy_refused-keep :
      (P : World D → Type 0) (e : Error) (w : World D) → P w → Ends (λ _. P) P (buy_refused env e w)
  unfolding buy_refused
  buy_refused-keep P no_remaining_slots w h = record { outcome = h }
  buy_refused-keep P position_already_open w h = record { outcome = h }
  buy_refused-keep P e w h = record { outcome = h }

module _ {D : Type 0} (env : Env D) (a total : ℕ) where
  -- The tables after the transaction of a buy.
  abbrev Opened : Trade D → Tables D
  Opened t ts fs = Sound a total ts fs × (lookup trade_id t.id ts ≡ some (stored env t))

  module _ (t : Trade D) (b : ℕ) (n : IsNewBuy b t) where
    holds-IsNewBuy : holds a t ≡ (b == a)
    holds-IsNewBuy = rw (n.buys, n.starts, n.account)

    insert_buy-Opened :
        (taken : Bool) (w : World D)
        → Holds (Sound a total) w
        → Ends (λ _. Holds (Opened t)) (λ _. Unit) (insert_buy env t b taken w)
    unfolding insert_buy
    insert_buy-Opened true w s = record { outcome = tt }
    insert_buy-Opened false w s =
        Ends-bind (create_trade env t) (λ _. decrement_remaining_trades env b) w
          {P = λ _. Holds λ ts fs.
            Sound a (total + bit (b == a)) ts fs × (lookup trade_id t.id ts ≡ some (stored env t))}
          (Ends-weaken _ (create_trade-Sound env a total w t s)
            (λ _ v (s', row). (rw holds-IsNewBuy at s', row)) (λ _ _. tt))
          λ _ v (s', row).
            Ends-weaken _
              (decrement-Sound env a total v b (λ ts. lookup trade_id t.id ts ≡ some (stored env t))
                s' row)
              (λ _ _ h. h) (λ _ _. tt)

    reserve_buy-Opened :
        (w : World D)
        → Holds (Sound a total) w
        → Ends (λ _. Holds (Opened t)) (λ _. Unit) (reserve_buy env t b w)
    unfolding reserve_buy
    reserve_buy-Opened w s =
        Ends-bind (has_open_position env t.symbol) (insert_buy env t b) w
          (Ends-weaken _ (has_open_position_effect env t.symbol w)
            (λ _ v (same, _). SameTables-Holds (Sound a total) w v same s) (λ _ _. tt))
          λ taken v s'. insert_buy-Opened taken v s'

    cancel_buy-Sound :
        (w : World D)
        → Holds (Opened t) w
        → Ends (λ _. Holds (Sound a total)) (λ _. Unit) (cancel_buy env t w)
    unfolding cancel_buy
    cancel_buy-Sound w (s, row) =
        let fits : bit (b == a) ≤ total =
          rw holds-IsNewBuy at
            (bit-le-total a total t.id w.trades w.transfers (stored env t) s row) in
        Ends-bind (update_trade env (record t { status = Status.cancelled }))
          (λ _. restore_account env t.account_transfer_id) w
          (Ends-weaken _
            (update_trade-Sound env a total w (record t { status = Status.cancelled })
              (stored env t) (total - bit (b == a)) s row (cancelled_bit fits))
            (λ _ _ h. h) (λ _ _. tt))
          λ _ v s'.
            Ends-weaken _
              (restore_account-Sound env a (total - bit (b == a)) t.account_transfer_id v s')
              (λ _ u h. subst (λ k. Holds (Sound a k) u) (whole fits) h) (λ _ _. tt)
      where
        cancelled_bit :
            bit (b == a) ≤ total
            → total + bit (holds a (record t { status = Status.cancelled }))
              ≡ total - bit (b == a) + bit (holds a t)
        cancelled_bit fits = rw (holds-IsNewBuy, n.buys) (omega arith)

        whole :
            bit (b == a) ≤ total
            → total - bit (b == a) + bit (is_some_of a t.account_transfer_id) ≡ total
        whole fits = rw n.account (omega arith)

    cancel-Sound :
        (w : World D)
        → Holds (Opened t) w
        → Ends
            (λ _. Holds (Sound a total))
            (Holds (Sound a total))
            (cancel_trade_and_restore_slot env t w)
    unfolding cancel_trade_and_restore_slot
    cancel-Sound w h =
        Ends-best_effort (within_transaction env (cancel_buy env t)) w (Holds (Sound a total)) (
          Ends-weaken _
            (Ends-within_transaction env (Opened t) (λ _. Sound a total) (cancel_buy env t) w h
              (cancel_buy-Sound (next_tick w) h))
            (λ _ _ s. s) (λ _ o. o.0))

    settle_buy-Sound :
        (signal : Signal D) (order : String) (w : World D)
        → Holds (Opened t) w
        → Ends
            (λ _. Holds (Sound a total))
            (Holds (Sound a total))
            (settle_buy env t signal order w)
    unfolding settle_buy
    settle_buy-Sound signal order w (s, row) =
        let placed : Trade D = record t { alpaca_order_id = some order } in
        Ends-bind (best_effort (update_trade env placed))
          (λ _. best_effort (mark_executed env signal.id) >>= λ _. pure (some placed)) w
          (Ends-best_effort (update_trade env placed) w (Holds (Sound a total))
            (update_trade-Sound env a total w placed (stored env t) total s row refl))
          λ _ v s'.
            Ends-bind (best_effort (mark_executed env signal.id)) (λ _. pure (some placed)) v
              (Ends-best_effort (mark_executed env signal.id) v (Holds (Sound a total)) (
                Reads-keep env (Sound a total) (mark_executed env signal.id) v
                  (mark_executed-Reads env signal.id) s'))
              λ _ u s''. record { outcome = s'' }

    abandon_buy-Sound :
        (e : Error) (w : World D)
        → Holds (Opened t) w
        → Ends (λ _. Holds (Sound a total)) (Holds (Sound a total)) (abandon_buy env t e w)
    unfolding abandon_buy
    abandon_buy-Sound e w h =
        Ends-bind (cancel_trade_and_restore_slot env t) (λ _. throw e) w (cancel-Sound w h)
          λ _ v s. record { outcome = s }

    place_buy-Sound :
        (signal : Signal D) (w : World D)
        → Holds (Opened t) w
        → Ends (λ _. Holds (Sound a total)) (Holds (Sound a total)) (place_buy env t signal w)
    unfolding place_buy
    place_buy-Sound signal w h =
        Ends-handled (place_order env (buy_request signal t)) (settle_buy env t signal)
          (abandon_buy env t) w
          (Reads-keep env (Opened t) _ w (place_order-Reads env (buy_request signal t)) h)
          (λ order v o. settle_buy-Sound signal order v o) (λ e v o. abandon_buy-Sound e v o)
          (λ v o. o.0)

    commit_buy-Sound :
        (signal : Signal D) (account : AccountTransfer D) (w : World D)
        → account.id ≡ b
        → Holds (Sound a total) w
        → Ends
            (λ _. Holds (Sound a total))
            (Holds (Sound a total))
            (commit_buy env signal account t w)
    unfolding commit_buy
    commit_buy-Sound signal account w same s =
        Ends-handled (within_transaction env (reserve_buy env t account.id))
          (λ _. place_buy env t signal) (buy_refused env) w
          (Ends-within_transaction env (Sound a total) (λ _. Opened t)
            (reserve_buy env t account.id) w s (rw same (reserve_buy-Opened (next_tick w) s)))
          (λ _ v o. place_buy-Sound signal v o)
          (λ e v s'. buy_refused-keep env (Holds (Sound a total)) e v s') (λ v s'. s')

module _ {D : Type 0} ⦃dec : Decimal D⦄ (env : Env D) (cfg : RiskParams D) (a total : ℕ) where
  buy_trade-IsNewBuy :
      (id : ℕ) (signal : Signal D) (account : AccountTransfer D) (quantity : D)
      → IsNewBuy account.id (buy_trade cfg id signal account quantity)
  unfolding buy_trade
  buy_trade-IsNewBuy id signal account quantity = record {
    buys = refl;
    starts = refl;
    account = refl;
  }

  open_buy-Sound :
      (signal : Signal D) (account : AccountTransfer D) (quantity : D) (w : World D)
      → Holds (Sound a total) w
      → Ends
          (λ _. Holds (Sound a total))
          (Holds (Sound a total))
          (open_buy env cfg signal account quantity w)
  unfolding open_buy
  open_buy-Sound signal account quantity w s =
      Ends-bind (new_uuid env)
        (λ id. commit_buy env signal account (buy_trade cfg id signal account quantity)) w
        (Reads-keep env (Sound a total) (new_uuid env) w (new_uuid-Reads env) s)
        λ id v s'.
          commit_buy-Sound env a total (buy_trade cfg id signal account quantity) account.id
            (buy_trade-IsNewBuy id signal account quantity) signal account v refl s'

  pub execute_buy_trade-Sound :
      (signal : Signal D) (account : Option (AccountTransfer D)) (w : World D)
      → Holds (Sound a total) w
      → Ends
          (λ _. Holds (Sound a total))
          (Holds (Sound a total))
          (execute_buy_trade env cfg signal account w)
  unfolding execute_buy_trade
  execute_buy_trade-Sound signal none w s = record { outcome = s }
  execute_buy_trade-Sound signal (some account) w s =
      elim (Bool-cases (has_slot account.remaining_trades)) [
        | inr full ↦ rw full (record { outcome = s })
        | inl free ↦ rw free (elim (Option-cases (size_position cfg signal account)) [
          | inl panics ↦ rw panics (record { outcome = s })
          | inr (q, sized) ↦ rw sized (elim (Bool-cases (dec.le q dec.naught)) [
            | inl nothing ↦ rw nothing (record { outcome = s })
            | inr some_shares ↦ rw some_shares (open_buy-Sound signal account q w s)
          ])
        ])
      ]
