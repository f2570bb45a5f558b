-- ===== src/Strategy/Trading/Calm.antt =====
-- Calls that place no order and leave the funding transfers alone.
use outbound_api.Prelude.{
  ◌≡◌, refl, ◌∙◌, Bool, true, false, String, Bool-cases, Option-cases, inl, inr, if◌then◌else◌,
}
use outbound_api.Prelude.Table.{has_key}
use outbound_api.Model.{Trade, Signal, ShadowExitDecision}
use outbound_api.Repository.Store.{
  Env, World, M, Result, ok, err, panicked, next_tick, finish, ◌>>=◌, pure, best_effort,
  within_transaction, new_uuid, time_now,
}
use outbound_api.Repository.Outcome.{Ends, Ends-bind, Ends-weaken, Ends-best_effort}
use outbound_api.Repository.Trades.{trade_refusal, update_trade, get_open_buy_trades_by_symbol}
use outbound_api.Repository.Signals.{insert_signal}
use outbound_api.Repository.Shadow.{log_shadow_signal, log_shadow_exit_decision}

-- The placed orders and the transfers are the same.
abbrev pub Calm : {D : Type 0} → World D → World D → Type 0
Calm w v = (v.orders ≡ w.orders) × (v.transfers ≡ w.transfers)

Calm-trans : {D : Type 0} (w v u : World D) → Calm w v → Calm v u → Calm w u
Calm-trans w v u (o, t) (o', t') = (o' ∙ o, t' ∙ t)

-- A call that is calm, however it ends.
abbrev pub IsCalm : {D A : Type 0} → M D A → Type 0
IsCalm {D} m = (w : World D) → Ends (λ _. Calm w) (Calm w) (m w)

module _ {D : Type 0} where
  pub bind-IsCalm :
      {A B : Type 0} (m : M D A) (f : A → M D B)
      → IsCalm m
      → ((a : A) → IsCalm (f a))
      → IsCalm (m >>= f)
  bind-IsCalm m f calm next w = Ends-bind m f w {P = λ _. Calm w} (calm w) λ a v c.
      Ends-weaken (f a v) (next a v) (λ _ u c'. Calm-trans w v u c c')
        (λ u c'. Calm-trans w v u c c')

  pub pure-IsCalm : {A : Type 0} (a : A) → IsCalm (pure {D = D} a)
  pure-IsCalm a w = record { outcome = (refl, refl) }

  pub best_effort-IsCalm : (m : M D (Unit {0})) → IsCalm m → IsCalm (best_effort m)
  best_effort-IsCalm m calm w = Ends-best_effort m w (Calm w) (calm w)

  pub if-IsCalm :
      {A : Type 0} (b : Bool) (m n : M D A) → IsCalm m → IsCalm n → IsCalm (if b then m else n)
  if-IsCalm true m n c c' = c
  if-IsCalm false m n c c' = c'

module _ {D : Type 0} (env : Env D) where
  finish-Calm :
      {A : Type 0} (w : World D) (x : Result A × World D)
      → Ends (λ _. Calm w) (Calm w) x
      → Ends (λ _. Calm w) (Calm w) (finish env w x)
  finish-Calm w (ok a, v) h = elim (Bool-cases (env.db_fails v.tick)) [
    | inl bad ↦ rw bad (record { outcome = (h.outcome.0, refl) })
    | inr good ↦ rw good (record { outcome = h.outcome })
  ]
  finish-Calm w (err e, v) h = record { outcome = (h.outcome.0, refl) }
  finish-Calm w (panicked, v) h = record { outcome = (h.outcome.0, refl) }

  pub within_transaction-IsCalm :
      {A : Type 0} (m : M D A) → IsCalm m → IsCalm (within_transaction env m)
  unfolding within_transaction
  within_transaction-IsCalm m calm w = elim (Bool-cases (env.db_fails w.tick)) [
    | inl bad ↦ rw bad (record { outcome = (refl, refl) })
    | inr good ↦ rw good (finish-Calm (next_tick w) (m (next_tick w)) (calm (next_tick w)))
  ]

  pub update_trade-IsCalm : (t : Trade D) → IsCalm (update_trade env t)
  unfolding update_trade
  update_trade-IsCalm t w = elim (Bool-cases (env.db_fails w.tick)) [
    | inl bad ↦ rw bad (record { outcome = (refl, refl) })
    | inr good ↦ rw good (elim (Bool-cases (has_key (λ r. r.id) t.id w.trades)) [
      | inr absent ↦ rw absent (record { outcome = (refl, refl) })
      | inl present ↦ rw present (elim (Option-cases (trade_refusal (next_tick w) t)) [
        | inl accepted ↦ rw accepted (record { outcome = (refl, refl) })
        | inr (e, refused) ↦ rw refused (record { outcome = (refl, refl) })
      ])
    ])
  ]

  pub log_shadow_signal-IsCalm : (s : Signal D) → IsCalm (log_shadow_signal env s)
  unfolding log_shadow_signal insert_signal
  log_shadow_signal-IsCalm s w = elim (Bool-cases (env.db_fails w.tick)) [
    | inl bad ↦ rw bad (record { outcome = (refl, refl) })
    | inr good ↦ rw good (elim (Bool-cases (has_key (λ r. r.id) s.id w.signals)) [
      | inl clash ↦ rw clash (record { outcome = (refl, refl) })
      | inr fresh ↦ rw fresh (record { outcome = (refl, refl) })
    ])
  ]

  pub log_shadow_exit_decision-IsCalm :
      (d : ShadowExitDecision D) → IsCalm (log_shadow_exit_decision env d)
  unfolding log_shadow_exit_decision
  log_shadow_exit_decision-IsCalm d w = elim (Bool-cases (env.db_fails w.tick)) [
    | inl bad ↦ rw bad (record { outcome = (refl, refl) })
    | inr good ↦ rw good (elim (Bool-cases (has_key (λ r. r.id) d.id w.decisions)) [
      | inl clash ↦ rw clash (record { outcome = (refl, refl) })
      | inr fresh ↦ rw fresh (elim (Bool-cases (has_key (λ r. r.id) d.trade_id w.trades)) [
        | inl known ↦ rw known (record { outcome = (refl, refl) })
        | inr unknown ↦ rw unknown (record { outcome = (refl, refl) })
      ])
    ])
  ]

  pub open_buys-IsCalm : (symbol : String) → IsCalm (get_open_buy_trades_by_symbol env symbol)
  unfolding get_open_buy_trades_by_symbol
  open_buys-IsCalm symbol w = elim (Bool-cases (env.db_fails w.tick)) [
    | inl bad ↦ rw bad (record { outcome = (refl, refl) })
    | inr good ↦ rw good (record { outcome = (refl, refl) })
  ]

  pub new_uuid-IsCalm : IsCalm (new_uuid env)
  unfolding new_uuid
  new_uuid-IsCalm w = record { outcome = (refl, refl) }

  pub time_now-IsCalm : IsCalm (time_now env)
  unfolding time_now
  time_now-IsCalm w = record { outcome = (refl, refl) }
