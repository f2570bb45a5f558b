-- ===== src/Repository/Orders/Calls.antt =====
-- The calls of the repositories, and the parts of the services that they make up, which place no
-- order.
use outbound_api.Prelude.{◌≡◌, refl, String, ℕ, arith}
use outbound_api.Model.{Trade, Signal}
use outbound_api.Repository.Store.{
  Env, World, M, Result, Error, ok, err, panicked, throw, best_effort, new_uuid, time_now,
}
use outbound_api.Repository.Outcome.{Ends}
use outbound_api.Repository.Trades.{
  create_trade, delete_trade, has_open_position, get_open_buy_trades_by_symbol,
}
use outbound_api.Repository.Transfers.{get_available_budget, decrement_remaining_trades}
use outbound_api.Repository.Signals.{insert_signal, create_signal, delete_signal, mark_executed}
use outbound_api.Repository.Orders.{PlacesNone}

module _ {D : Type 0} where
  pub throw-PlacesNone : {A : Type 0} (e : Error) → PlacesNone (throw {D = D} {A = A} e)
  throw-PlacesNone e = record { same = λ w. refl }

  pub best_effort-PlacesNone : (m : M D (Unit {0})) → PlacesNone m → PlacesNone (best_effort m)
  best_effort-PlacesNone m quiet = record { same = λ w. go w (m w) (quiet.same w) }
    where
      go :
          (w : World D) (x : Result (Unit {0}) × World D)
          → x.1.orders ≡ w.orders
          → (let y : Result (Unit {0}) × World D = elim x.0 [
            | ok _ ↦ (ok tt, x.1)
            | err _ ↦ (ok tt, x.1)
            | panicked ↦ (panicked, x.1)
          ] in
              y).1.orders
            ≡ w.orders
      go w (ok a, v) h = h
      go w (err e, v) h = h
      go w (panicked, v) h = h

  -- What is known of the end of a call, and the orders that it has not changed.
  pub Ends-orders :
      {A : Type 0} (m : M D A) (w : World D) (P : A → World D → Type 0) (E : World D → Type 0)
      → PlacesNone m
      → Ends P E (m w)
      → Ends (λ a v. P a v × (v.orders ≡ w.orders)) (λ v. E v × (v.orders ≡ w.orders)) (m w)
  Ends-orders {A} m w P E quiet h = go (m w) (quiet.same w) h
    where
      go :
          (x : Result A × World D)
          → x.1.orders ≡ w.orders
          → Ends P E x
          → Ends (λ a v. P a v × (v.orders ≡ w.orders)) (λ v. E v × (v.orders ≡ w.orders)) x
      go (ok a, v) same h = record { outcome = (h.outcome, same) }
      go (err e, v) same h = record { outcome = (h.outcome, same) }
      go (panicked, v) same h = record { outcome = (h.outcome, same) }

module _ {D : Type 0} (env : Env D) where
  pub new_uuid-PlacesNone : PlacesNone (new_uuid env)
  unfolding new_uuid
  new_uuid-PlacesNone = record { same = λ w. refl }

  pub time_now-PlacesNone : PlacesNone (time_now env)
  unfolding time_now
  time_now-PlacesNone = record { same = λ w. refl }

  pub create_signal-PlacesNone : (s : Signal D) → PlacesNone (create_signal env s)
  unfolding create_signal insert_signal
  create_signal-PlacesNone s = record { same = λ w. ground arith }

  pub delete_signal-PlacesNone : (id : ℕ) → PlacesNone (delete_signal env id)
  unfolding delete_signal
  delete_signal-PlacesNone id = record { same = λ w. ground arith }

  pub mark_executed-PlacesNone : (id : ℕ) → PlacesNone (mark_executed env id)
  unfolding mark_executed
  mark_executed-PlacesNone id = record { same = λ w. ground arith }

  pub has_open_position-PlacesNone : (symbol : String) → PlacesNone (has_open_position env symbol)
  unfolding has_open_position
  has_open_position-PlacesNone symbol = record { same = λ w. ground arith }

  pub open_buys-PlacesNone :
      (symbol : String) → PlacesNone (get_open_buy_trades_by_symbol env symbol)
  unfolding get_open_buy_trades_by_symbol
  open_buys-PlacesNone symbol = record { same = λ w. ground arith }

  pub available_budget-PlacesNone : PlacesNone (get_available_budget env)
  unfolding get_available_budget
  available_budget-PlacesNone = record { same = λ w. ground arith }

  pub delete_trade-PlacesNone : (id : ℕ) → PlacesNone (delete_trade env id)
  unfolding delete_trade
  delete_trade-PlacesNone id = record { same = λ w. ground arith }

  pub create_trade-PlacesNone : (t : Trade D) → PlacesNone (create_trade env t)
  unfolding create_trade
  create_trade-PlacesNone t = record { same = λ w. ground arith }

  pub decrement-PlacesNone : (id : ℕ) → PlacesNone (decrement_remaining_trades env id)
  unfolding decrement_remaining_trades time_now
  decrement-PlacesNone id = record { same = λ w. ground arith }
