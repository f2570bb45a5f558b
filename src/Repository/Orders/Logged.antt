-- ===== src/Repository/Orders/Logged.antt =====
-- Calls whose failures are logged and dropped: they return, and place no order.
use outbound_api.Prelude.{ℕ, ◌+◌, ◌≡◌, ◌∙◌, Bool, true, false, arith}
use outbound_api.Model.{Trade}
use outbound_api.Repository.Store.{
  Env, World, M, Error, handled, Result, ok, err, panicked, best_effort, ◌>>=◌,
}
use outbound_api.Repository.Outcome.{Ends, Ends-weaken, Ends-bind}
use outbound_api.Repository.Trades.{update_trade, delete_trade}
use outbound_api.Repository.Signals.{delete_signal, mark_executed}
use outbound_api.Repository.Orders.{PlacesNone, update_trade-PlacesNone}
use outbound_api.Repository.Orders.Calls.{
  delete_trade-PlacesNone, delete_signal-PlacesNone, mark_executed-PlacesNone,
}

abbrev pub is_panic : {A : Type 0} → Result A → Bool
is_panic panicked = true
is_panic _ = false

module _ {D : Type 0} where
  -- One call that never panics and places no order.
  pub record Calls (m : M D (Unit {0})) : Type 0 where
    pub no_panic : (w : World D) → is_panic (m w).0 ≡ false
    pub quiet : PlacesNone m
    pub one_call : (w : World D) → (m w).1.tick ≡ w.tick + 1

  logged :
      (m : M D (Unit {0})) (w : World D)
      → Calls m
      → Ends (λ _ v. (v.orders ≡ w.orders) × (v.tick ≡ w.tick + 1)) (λ _. ⊥) (best_effort m w)
  logged m w h = go (m w) (h.no_panic w) (h.quiet.same w) (h.one_call w)
    where
      go :
          (x : Result (Unit {0}) × World D)
          → is_panic x.0 ≡ false
          → x.1.orders ≡ w.orders
          → x.1.tick ≡ w.tick + 1
          → Ends {D = D} {A = Unit {0}}
              (λ _ v. (v.orders ≡ w.orders) × (v.tick ≡ w.tick + 1))
              (λ _. ⊥)
              (elim x.0 [ ok _ ↦ (ok tt, x.1) | err _ ↦ (ok tt, x.1) | panicked ↦ (panicked, x.1) ])
      go (ok a, v) e same one = record { outcome = (same, one) }
      go (err e', v) e same one = record { outcome = (same, one) }
      go (panicked, v) e same one = cc

  -- Two calls whose failures are logged and dropped.
  pub both_logged :
      (m n : M D (Unit {0})) (w : World D)
      → Calls m
      → Calls n
      → Ends
          (λ _ v. (v.orders ≡ w.orders) × (v.tick ≡ w.tick + 2))
          (λ _. ⊥)
          ((best_effort m >>= λ _. best_effort n) w)
  both_logged m n w h k =
      Ends-bind (best_effort m) (λ _. best_effort n) w
        {P = λ _ v. (v.orders ≡ w.orders) × (v.tick ≡ w.tick + 1)} (logged m w h)
        λ _ v (same, one).
          Ends-weaken (best_effort n v) (logged n v k)
            (λ _ u (same', one'). (same' ∙ same, omega arith)) (λ _ x. x)

  -- A call that does not panic, and whose failure the caller handles.
  pub no_panic-handled :
      {A B : Type 0} (m : M D A) (f : A → M D B) (g : Error → M D B) (w : World D)
      → {P : A → World D → Type 0} {E : World D → Type 0} {Q : B → World D → Type 0}
        {F : World D → Type 0}
      → Ends P E (m w)
      → is_panic (m w).0 ≡ false
      → ((a : A) (v : World D) → P a v → Ends Q F (f a v))
      → ((e : Error) (v : World D) → E v → Ends Q F (g e v))
      → Ends Q F (handled m f g w)
  no_panic-handled {A} {B} m f g w {P} {E} {Q} {F} h n ok_case err_case = go (m w) h n
    where
      go :
          (x : Result A × World D)
          → Ends P E x
          → is_panic x.0 ≡ false
          → Ends Q F (elim x.0 [ ok a ↦ f a x.1 | err e ↦ g e x.1 | panicked ↦ (panicked, x.1) ])
      go (ok a, v) k q = ok_case a v k.outcome
      go (err e, v) k q = err_case e v k.outcome
      go (panicked, v) k q = cc

module _ {D : Type 0} (env : Env D) where
  pub update_trade-Calls : (t : Trade D) → Calls (update_trade env t)
  unfolding update_trade
  update_trade-Calls t = record {
    no_panic = λ w. ground arith;
    quiet = update_trade-PlacesNone env t;
    one_call = λ w. ground arith;
  }

  pub delete_trade-Calls : (id : ℕ) → Calls (delete_trade env id)
  unfolding delete_trade
  delete_trade-Calls id = record {
    no_panic = λ w. ground arith;
    quiet = delete_trade-PlacesNone env id;
    one_call = λ w. ground arith;
  }

  pub delete_signal-Calls : (id : ℕ) → Calls (delete_signal env id)
  unfolding delete_signal
  delete_signal-Calls id = record {
    no_panic = λ w. ground arith;
    quiet = delete_signal-PlacesNone env id;
    one_call = λ w. ground arith;
  }

  pub mark_executed-Calls : (id : ℕ) → Calls (mark_executed env id)
  unfolding mark_executed
  mark_executed-Calls id = record {
    no_panic = λ w. ground arith;
    quiet = mark_executed-PlacesNone env id;
    one_call = λ w. ground arith;
  }
