-- ===== src/Service/Account.antt =====
-- internal/service/account_transfer_service.go: its methods pass the calls on to the repository.
use outbound_api.Prelude.{ℕ, Option}
use outbound_api.Model.{AccountTransfer}
use outbound_api.Repository.Store.{Env, M}
use outbound_api.Repository.Transfers

module _ {D : Type 0} (env : Env D) where
  abbrev pub create_account_transfer : AccountTransfer D → M D (Unit {0})
  create_account_transfer = Transfers.create_transfer env

  abbrev pub get_available_budget : M D (Option (AccountTransfer D))
  get_available_budget = Transfers.get_available_budget env

  abbrev pub decrement_remaining_trades : ℕ → M D (Unit {0})
  decrement_remaining_trades = Transfers.decrement_remaining_trades env
