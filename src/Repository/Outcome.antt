-- ===== src/Repository/Outcome.antt =====
-- How a call ends: `Ends Q E` says that a call that returns `a` leaves a world with `Q a`, and that a
-- call that fails or panics leaves one with `E`. There is a rule for each way to compose calls.
use outbound_api.Prelude.{Bool-cases, inl, inr}
use outbound_api.Model.{Trade, AccountTransfer}
use outbound_api.Repository.Store.{
  handled, Env, World, M, Result, Error, ok, err, panicked, ◌>>=◌, best_effort, query, finish,
  within_transaction, next_tick,
}
use outbound_api.Prelude.{List}

module _ {D : Type 0} {A : Type 0} where
  abbrev pub EndsAs : (A → World D → Type 0) → (World D → Type 0) → Result A × World D → Type 0
  EndsAs Q E (ok a, w) = Q a w
  EndsAs Q E (err e, w) = E w
  EndsAs Q E (panicked, w) = E w

  pub record Ends (Q : A → World D → Type 0) (E : World D → Type 0) (x : Result A × World D)
      : Type 0 where
    pub outcome : EndsAs Q E x

module _ {D : Type 0} where
  -- The world after the call, whatever it returns.
  pub Ends_state :
      {A : Type 0} (P : World D → Type 0) (x : Result A × World D) → Ends (λ _. P) P x → P x.1
  Ends_state P (ok _, w) h = h.outcome
  Ends_state P (err _, w) h = h.outcome
  Ends_state P (panicked, w) h = h.outcome

-- The tables that budgets and positions are read from.
abbrev pub Tables : Type 0 → Type 1
Tables D = List (Trade D) → List (AccountTransfer D) → Type 0

module _ {D : Type 0} where
  abbrev pub Holds : Tables D → World D → Type 0
  Holds T w = T w.trades w.transfers

  pub Ends-bind :
      {A B : Type 0} (m : M D A) (f : A → M D B) (w : World D)
      → {P : A → World D → Type 0} {Q : B → World D → Type 0} {E : World D → Type 0}
      → Ends P E (m w)
      → ((a : A) (v : World D) → P a v → Ends Q E (f a v))
      → Ends Q E ((m >>= f) w)
  Ends-bind {A} m f w {P} {Q} {E} h k = go (m w) h
    where
      go :
          (x : Result A × World D)
          → Ends P E x
          → Ends Q E
              (elim x.0 [ ok a ↦ f a x.1 | err e ↦ (err e, x.1) | panicked ↦ (panicked, x.1) ])
      go (ok a, v) h = k a v h.outcome
      go (err e, v) h = record { outcome = h.outcome }
      go (panicked, v) h = record { outcome = h.outcome }

  pub Ends-handled :
      {A B : Type 0} (m : M D A) (f : A → M D B) (g : Error → M D B) (w : World D)
      → {P : A → World D → Type 0} {Q : B → World D → Type 0} {F E : World D → Type 0}
      → Ends P F (m w)
      → ((a : A) (v : World D) → P a v → Ends Q E (f a v))
      → ((e : Error) (v : World D) → F v → Ends Q E (g e v))
      → ((v : World D) → F v → E v)
      → Ends Q E (handled m f g w)
  Ends-handled {A} m f g w {P} {Q} {F} {E} h k l weaken = go (m w) h
    where
      go :
          (x : Result A × World D)
          → Ends P F x
          → Ends Q E (elim x.0 [ ok a ↦ f a x.1 | err e ↦ g e x.1 | panicked ↦ (panicked, x.1) ])
      go (ok a, v) h = k a v h.outcome
      go (err e, v) h = l e v h.outcome
      go (panicked, v) h = record { outcome = weaken v h.outcome }

  pub Ends-best_effort :
      (m : M D (Unit {0})) (w : World D) (P : World D → Type 0)
      → Ends (λ _. P) P (m w)
      → Ends (λ _. P) P (best_effort m w)
  Ends-best_effort m w P h = go (m w) h
    where
      go :
          (x : Result (Unit {0}) × World D)
          → Ends {A = Unit {0}} (λ _. P) P x
          → Ends {A = Unit {0}}
              (λ _. P)
              P
              (elim x.0 [ ok _ ↦ (ok tt, x.1) | err _ ↦ (ok tt, x.1) | panicked ↦ (panicked, x.1) ])
      go (ok _, v) h = record { outcome = h.outcome }
      go (err _, v) h = record { outcome = h.outcome }
      go (panicked, v) h = record { outcome = h.outcome }

  pub Ends-weaken :
      {A : Type 0} (x : Result A × World D) {Q Q' : A → World D → Type 0} {E E' : World D → Type 0}
      → Ends Q E x
      → ((a : A) (v : World D) → Q a v → Q' a v)
      → ((v : World D) → E v → E' v)
      → Ends Q' E' x
  Ends-weaken (ok a, v) h q e = record { outcome = q a v h.outcome }
  Ends-weaken (err _, v) h q e = record { outcome = e v h.outcome }
  Ends-weaken (panicked, v) h q e = record { outcome = e v h.outcome }

  module _ (env : Env D) where
    pub Ends-query :
        {A : Type 0} (f : World D → Result A × World D) (w : World D)
        → {Q : A → World D → Type 0} {E : World D → Type 0} → E (next_tick w)
        → Ends Q E (f (next_tick w))
        → Ends Q E (query env f w)
    Ends-query f w e h = elim (Bool-cases (env.db_fails w.tick)) [
      | inl bad ↦ rw bad (record { outcome = e })
      | inr good ↦ rw good h
    ]

    -- Inside a transaction only the way to success counts.
    pub Ends-within_transaction :
        {A : Type 0} (T : Tables D) (Q : A → Tables D) (m : M D A) (w : World D)
        → Holds T w
        → Ends (λ a. Holds (Q a)) (λ _. Unit) (m (next_tick w))
        → Ends (λ a. Holds (Q a)) (Holds T) (within_transaction env m w)
    unfolding within_transaction
    Ends-within_transaction {A} T Q m w before h = elim (Bool-cases (env.db_fails w.tick)) [
      | inl bad ↦ rw bad (record { outcome = before })
      | inr good ↦ rw good (go (m (next_tick w)) h)
    ]
      where
        go :
            (x : Result A × World D)
            → Ends (λ a. Holds (Q a)) (λ _. Unit) x
            → Ends (λ a. Holds (Q a)) (Holds T) (finish env (next_tick w) x)
        go (ok a, v) h = elim (Bool-cases (env.db_fails v.tick)) [
          | inl bad ↦ rw bad (record { outcome = before })
          | inr good ↦ rw good (record { outcome = h.outcome })
        ]
        go (err e, v) h = record { outcome = before }
        go (panicked, v) h = record { outcome = before }
