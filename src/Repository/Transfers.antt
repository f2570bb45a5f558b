-- ===== src/Repository/Transfers.antt =====
-- internal/repository/account_transfer_repository.go over the table `account_transfers`. The slot
-- counter is a number that is not negative: it is set by `create_transfer` and never taken below 0.
pub mod Oldest
use mathlib.Core.Option
use outbound_api.Prelude.{
  ℕ, suc, ◌+◌, ◌-◌, Bool, true, false, ◌&&◌, Option, none, some, List, [], ◌∷◌, ◌++◌, ◌==◌, leb,
  if◌then◌else◌, any,
}
use outbound_api.Prelude.Table.{has_key, update}
use outbound_api.Model.{AccountTransfer}
use outbound_api.Repository.Store.{
  Env, M, ok, err, unique_violation, no_remaining_slots, no_account_transfer, query, ◌>>=◌,
  time_now,
}

-- `remaining_trades > 0`
abbrev pub has_slot : Option ℕ → Bool
has_slot (some (suc n)) = true
has_slot _ = false

-- `remaining_trades - 1` and `+ 1`; NULL stays NULL.
abbrev pub take_slot : Option ℕ → Option ℕ
take_slot none = none
take_slot (some n) = some (n - 1)

abbrev pub give_slot : Option ℕ → Option ℕ
give_slot none = none
give_slot (some n) = some (n + 1)

module _ {D : Type 0} where
  -- The oldest row with a slot: ORDER BY created_at LIMIT 1.
  unfoldable pub oldest_with_slot : List (AccountTransfer D) → Option (AccountTransfer D)
  oldest_with_slot [] = none
  oldest_with_slot (t ∷ rows) =
      let rest = oldest_with_slot rows in
      if has_slot t.remaining_trades
      then elim rest [
        | none ↦ some t
        | some r ↦ if leb t.created_at r.created_at then some t else some r
      ]
      else rest

  abbrev pub taken : ℕ → AccountTransfer D → AccountTransfer D
  taken at t =
      if has_slot t.remaining_trades
      then record t { remaining_trades = take_slot t.remaining_trades; updated_at = at }
      else t

  abbrev pub given : ℕ → AccountTransfer D → AccountTransfer D
  given at t = record t { remaining_trades = give_slot t.remaining_trades; updated_at = at }

  module _ (env : Env D) where
    abbrev pub stored_transfer : AccountTransfer D → AccountTransfer D
    stored_transfer t = record t {
      amount_thb = env.column t.amount_thb;
      amount_usd = env.column t.amount_usd;
      fee_thb = env.column t.fee_thb;
      fee_usd = Option.map env.column t.fee_usd;
      exchange_rate = env.column t.exchange_rate;
    }

    unfoldable pub create_transfer : AccountTransfer D → M D (Unit {0})
    create_transfer t = query env λ w.
        if has_key (λ r. r.id) t.id w.transfers
        then (err unique_violation, w)
        else (ok tt, record w { transfers = w.transfers ++ (stored_transfer t ∷ []) })

    unfoldable pub get_available_budget : M D (Option (AccountTransfer D))
    get_available_budget = query env λ w. (ok (oldest_with_slot w.transfers), w)

    -- No row with the id and a slot: ErrNoRemainingSlots.
    unfoldable pub decrement_remaining_trades : ℕ → M D (Unit {0})
    unfolding time_now
    decrement_remaining_trades id = do
      at ← time_now env
      query env λ w.
          if any (λ t. t.id == id && has_slot t.remaining_trades) w.transfers
          then (ok tt, record w { transfers = update (λ t. t.id) id (taken at) w.transfers })
          else (err no_remaining_slots, w)

    unfoldable pub increment_remaining_trades : ℕ → M D (Unit {0})
    unfolding time_now
    increment_remaining_trades id = do
      at ← time_now env
      query env λ w.
          if has_key (λ t. t.id) id w.transfers
          then (ok tt, record w { transfers = update (λ t. t.id) id (given at) w.transfers })
          else (err no_account_transfer, w)
