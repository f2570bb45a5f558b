-- ===== src/Repository/Signals.antt =====
-- internal/repository/signal_repository.go over the table `signals`.
use outbound_api.Prelude.{ℕ, true, List, [], ◌∷◌, ◌++◌, if◌then◌else◌, any, is_some_of}
use outbound_api.Prelude.Table.{has_key, update, erase}
use outbound_api.Model.{Signal}
use outbound_api.Repository.Store.{
  Env, World, M, Result, ok, err, unique_violation, foreign_key_violation, query,
}

module _ {D : Type 0} (env : Env D) where
  -- The INSERT leaves `created_at` to the column's default, the time of the database.
  abbrev pub stored_signal : ℕ → Signal D → Signal D
  stored_signal tick s = record s {
    price_at_signal = env.column s.price_at_signal;
    created_at = env.now tick;
  }

  unfoldable pub insert_signal : Signal D → World D → Result (Unit {0}) × World D
  insert_signal s w =
      if has_key (λ r. r.id) s.id w.signals
      then (err unique_violation, w)
      else (ok tt, record w { signals = w.signals ++ (stored_signal w.tick s ∷ []) })

  unfoldable pub get_all_signals : M D (List (Signal D))
  get_all_signals = query env λ w. (ok w.signals, w)

  unfoldable pub create_signal : Signal D → M D (Unit {0})
  create_signal s = query env (insert_signal s)

  -- trades.signal_id is ON DELETE RESTRICT.
  unfoldable pub delete_signal : ℕ → M D (Unit {0})
  delete_signal id = query env λ w.
      if any (λ t. is_some_of id t.signal_id) w.trades
      then (err foreign_key_violation, w)
      else (ok tt, record w { signals = erase (λ r. r.id) id w.signals })

  unfoldable pub mark_executed : ℕ → M D (Unit {0})
  mark_executed id = query env λ w. (
    ok tt,
    record w { signals = update (λ r. r.id) id (λ s. record s { is_executed = true }) w.signals },
  )
