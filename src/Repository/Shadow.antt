-- ===== src/Repository/Shadow.antt =====
-- internal/repository/shadow_repository.go: observations of the shadow strategy.
use outbound_api.Prelude.{[], ◌∷◌, ◌++◌, if◌then◌else◌}
use outbound_api.Prelude.Table.{has_key}
use mathlib.Core.Option
use outbound_api.Model.{Signal, ShadowExitDecision}
use outbound_api.Repository.Store.{Env, M, ok, err, unique_violation, foreign_key_violation, query}
use outbound_api.Repository.Signals.{insert_signal}

module _ {D : Type 0} (env : Env D) where
  unfoldable pub log_shadow_signal : Signal D → M D (Unit {0})
  log_shadow_signal s = query env (insert_signal env s)

  abbrev pub stored_decision : ShadowExitDecision D → ShadowExitDecision D
  stored_decision d = record d {
    current_price = env.column d.current_price;
    peak_price = env.column d.peak_price;
    current_stop = Option.map env.column d.current_stop;
  }

  unfoldable pub log_shadow_exit_decision : ShadowExitDecision D → M D (Unit {0})
  log_shadow_exit_decision d = query env λ w.
      if has_key (λ r. r.id) d.id w.decisions
      then (err unique_violation, w)
      else if has_key (λ r. r.id) d.trade_id w.trades
      then (ok tt, record w { decisions = w.decisions ++ (stored_decision d ∷ []) })
      else (err foreign_key_violation, w)
