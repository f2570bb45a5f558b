-- ===== src/Repository/Orders.antt =====
-- Calls that place no order, however they end.
pub mod Calls
pub mod Logged
use outbound_api.Prelude.{
  ◌≡◌, refl, ◌∙◌, Bool, true, false, String, Bool-cases, Option-cases, inl, inr, ℕ, if◌then◌else◌,
}
use outbound_api.Prelude.Table.{has_key}
use outbound_api.Model.{Trade}
use outbound_api.Repository.Store.{
  Env, World, M, Result, ok, err, panicked, next_tick, finish, ◌>>=◌, pure, time_now,
  within_transaction,
}
use outbound_api.Repository.Trades.{trade_refusal, update_trade, get_by_alpaca_order_id}
use outbound_api.Repository.Transfers.{increment_remaining_trades}

module _ {D : Type 0} where
  abbrev Same : {A : Type 0} → World D → Result A × World D → Type 0
  Same w x = x.1.orders ≡ w.orders

  -- The orders placed so far are the same after the call.
  pub record PlacesNone {A : Type 0} (m : M D A) : Type 0 where
    pub same : (w : World D) → Same w (m w)

  pub pure-PlacesNone : {A : Type 0} (a : A) → PlacesNone (pure a)
  pure-PlacesNone a = record { same = λ w. refl }

  pub bind-PlacesNone :
      {A B : Type 0} (m : M D A) (f : A → M D B)
      → PlacesNone m
      → ((a : A) → PlacesNone (f a))
      → PlacesNone (m >>= f)
  bind-PlacesNone {A} {B} m f quiet next = record { same = λ w. after w (m w) (quiet.same w) }
    where
      after :
          (w : World D) (x : Result A × World D)
          → Same w x
          → Same {A = B} w
              (elim x.0 [ ok a ↦ f a x.1 | err e ↦ (err e, x.1) | panicked ↦ (panicked, x.1) ])
      after w (ok a, v) h = (next a).same v ∙ h
      after w (err e, v) h = h
      after w (panicked, v) h = h

  pub if-PlacesNone :
      {A : Type 0} (b : Bool) (m n : M D A)
      → PlacesNone m
      → PlacesNone n
      → PlacesNone (if b then m else n)
  if-PlacesNone true m n q q' = q
  if-PlacesNone false m n q q' = q'

module _ {D : Type 0} (env : Env D) where
  finish-orders :
      {A : Type 0} (w : World D) (x : Result A × World D) → (finish env w x).1.orders ≡ x.1.orders
  finish-orders w (ok a, v) = elim (Bool-cases (env.db_fails v.tick)) [
    | inl bad ↦ rw bad refl
    | inr good ↦ rw good refl
  ]
  finish-orders w (err e, v) = refl
  finish-orders w (panicked, v) = refl

  -- ROLLBACK does not take orders back.
  pub within_transaction-PlacesNone :
      {A : Type 0} (m : M D A) → PlacesNone m → PlacesNone (within_transaction env m)
  unfolding within_transaction
  within_transaction-PlacesNone m quiet = record {
    same = λ w. elim (Bool-cases (env.db_fails w.tick)) [
      | inl bad ↦ rw bad refl
      | inr good ↦
          rw good (finish-orders (next_tick w) (m (next_tick w)) ∙ quiet.same (next_tick w))
    ];
  }

  pub update_trade-PlacesNone : (t : Trade D) → PlacesNone (update_trade env t)
  unfolding update_trade
  update_trade-PlacesNone t = record {
    same = λ w. elim (Bool-cases (env.db_fails w.tick)) [
      | inl bad ↦ rw bad refl
      | inr good ↦ rw good (elim (Bool-cases (has_key (λ r. r.id) t.id w.trades)) [
        | inr absent ↦ rw absent refl
        | inl present ↦ rw present (elim (Option-cases (trade_refusal (next_tick w) t)) [
          | inl accepted ↦ rw accepted refl
          | inr (e, refused) ↦ rw refused refl
        ])
      ])
    ];
  }

  pub by_order-PlacesNone : (order : String) → PlacesNone (get_by_alpaca_order_id env order)
  unfolding get_by_alpaca_order_id
  by_order-PlacesNone order = record {
    same = λ w. elim (Bool-cases (env.db_fails w.tick)) [
      | inl bad ↦ rw bad refl
      | inr good ↦ rw good refl
    ];
  }

  pub increment-PlacesNone : (id : ℕ) → PlacesNone (increment_remaining_trades env id)
  unfolding increment_remaining_trades time_now
  increment-PlacesNone id = record {
    same = λ w. elim (Bool-cases (env.db_fails (next_tick w).tick)) [
      | inl bad ↦ rw bad refl
      | inr good ↦ rw good (elim (Bool-cases (has_key (λ t. t.id) id w.transfers)) [
        | inl known ↦ rw known refl
        | inr unknown ↦ rw unknown refl
      ])
    ];
  }
