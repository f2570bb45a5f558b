-- ===== src/Repository/Reads.antt =====
-- The calls that leave the tables of trades and transfers as they are, however they end.
use outbound_api.Prelude.{
  find, ℕ, ◌≡◌, refl, some, String, any, Bool-cases, Option-cases, inl, inr, is_some_of,
}
use outbound_api.Prelude.Table.{has_key}
use outbound_api.Model.{Signal, ShadowExitDecision}
use outbound_api.Repository.Store.{Env, World, OrderRequest, M, place_order, new_uuid, time_now}
use outbound_api.Repository.Outcome.{Ends}
use outbound_api.Repository.Trades.{
  has_open_position, get_open_buy_trades_by_symbol, get_by_alpaca_order_id, is_open_position,
  same_order,
}
use outbound_api.Repository.Transfers.{get_available_budget}
use outbound_api.Repository.Signals.{insert_signal, create_signal, delete_signal, mark_executed}
use outbound_api.Repository.Shadow.{log_shadow_signal, log_shadow_exit_decision}
use outbound_api.Repository.Effects.{SameTables}

module _ {D : Type 0} where
  module _ (env : Env D) where
    -- A call that leaves both tables alone.
    abbrev pub Reads : {A : Type 0} → M D A → Type 0
    Reads m = (w : World D) → Ends (λ _. SameTables w) (SameTables w) (m w)

    pub create_signal-Reads : (s : Signal D) → Reads (create_signal env s)
    unfolding create_signal insert_signal
    create_signal-Reads s w = elim (Bool-cases (env.db_fails w.tick)) [
      | inl bad ↦ rw bad (record { outcome = (refl, refl) })
      | inr good ↦ rw good (elim (Bool-cases (has_key (λ r. r.id) s.id w.signals)) [
        | inl clash ↦ rw clash (record { outcome = (refl, refl) })
        | inr fresh ↦ rw fresh (record { outcome = (refl, refl) })
      ])
    ]

    pub log_shadow_signal-Reads : (s : Signal D) → Reads (log_shadow_signal env s)
    unfolding create_signal log_shadow_signal
    log_shadow_signal-Reads s = create_signal-Reads s

    pub delete_signal-Reads : (id : ℕ) → Reads (delete_signal env id)
    unfolding delete_signal
    delete_signal-Reads id w = elim (Bool-cases (env.db_fails w.tick)) [
      | inl bad ↦ rw bad (record { outcome = (refl, refl) })
      | inr good ↦ rw good (elim (Bool-cases (any (λ t. is_some_of id t.signal_id) w.trades)) [
        | inl used ↦ rw used (record { outcome = (refl, refl) })
        | inr free ↦ rw free (record { outcome = (refl, refl) })
      ])
    ]

    pub mark_executed-Reads : (id : ℕ) → Reads (mark_executed env id)
    unfolding mark_executed
    mark_executed-Reads id w = elim (Bool-cases (env.db_fails w.tick)) [
      | inl bad ↦ rw bad (record { outcome = (refl, refl) })
      | inr good ↦ rw good (record { outcome = (refl, refl) })
    ]

    pub log_shadow_exit_decision-Reads :
        (d : ShadowExitDecision D) → Reads (log_shadow_exit_decision env d)
    unfolding log_shadow_exit_decision
    log_shadow_exit_decision-Reads d w = elim (Bool-cases (env.db_fails w.tick)) [
      | inl bad ↦ rw bad (record { outcome = (refl, refl) })
      | inr good ↦ rw good (elim (Bool-cases (has_key (λ r. r.id) d.id w.decisions)) [
        | inl clash ↦ rw clash (record { outcome = (refl, refl) })
        | inr fresh ↦ rw fresh (elim (Bool-cases (has_key (λ r. r.id) d.trade_id w.trades)) [
          | inl known ↦ rw known (record { outcome = (refl, refl) })
          | inr unknown ↦ rw unknown (record { outcome = (refl, refl) })
        ])
      ])
    ]

    pub place_order-Reads : (req : OrderRequest D) → Reads (place_order env req)
    unfolding place_order
    place_order-Reads req w = elim (Option-cases (env.place_order w.tick)) [
      | inl fails ↦ elim (Bool-cases (env.is_kept w.tick)) [
        | inl kept ↦ rw (fails, kept, place_order) (record { outcome = (refl, refl) })
        | inr refused ↦ rw (fails, refused, place_order) (record { outcome = (refl, refl) })
      ]
      | inr (order, accepted) ↦ rw (accepted, place_order) (record { outcome = (refl, refl) })
    ]

    pub new_uuid-Reads : Reads (new_uuid env)
    unfolding new_uuid
    new_uuid-Reads w = record { outcome = (refl, refl) }

    pub time_now-Reads : Reads (time_now env)
    unfolding time_now
    time_now-Reads w = record { outcome = (refl, refl) }

    pub get_available_budget-Reads : Reads (get_available_budget env)
    unfolding get_available_budget
    get_available_budget-Reads w = elim (Bool-cases (env.db_fails w.tick)) [
      | inl bad ↦ rw bad (record { outcome = (refl, refl) })
      | inr good ↦ rw good (record { outcome = (refl, refl) })
    ]

    pub has_open_position_effect :
        (symbol : String) (w : World D)
        → Ends
            (λ b v. SameTables w v × (b ≡ any (is_open_position w.trades symbol) w.trades))
            (SameTables w)
            (has_open_position env symbol w)
    unfolding has_open_position
    has_open_position_effect symbol w = elim (Bool-cases (env.db_fails w.tick)) [
      | inl bad ↦ rw bad (record { outcome = (refl, refl) })
      | inr good ↦ rw good (record { outcome = ((refl, refl), refl) })
    ]

    pub get_open_buy_trades-Reads :
        (symbol : String) → Reads (get_open_buy_trades_by_symbol env symbol)
    unfolding get_open_buy_trades_by_symbol
    get_open_buy_trades-Reads symbol w = elim (Bool-cases (env.db_fails w.tick)) [
      | inl bad ↦ rw bad (record { outcome = (refl, refl) })
      | inr good ↦ rw good (record { outcome = (refl, refl) })
    ]

    pub get_by_alpaca_order_id_effect :
        (order : String) (w : World D)
        → Ends
            (λ found v.
              SameTables w v
              × (found ≡ find (λ t. same_order t.alpaca_order_id (some order)) w.trades))
            (SameTables w)
            (get_by_alpaca_order_id env order w)
    unfolding get_by_alpaca_order_id
    get_by_alpaca_order_id_effect order w = elim (Bool-cases (env.db_fails w.tick)) [
      | inl bad ↦ rw bad (record { outcome = (refl, refl) })
      | inr good ↦ rw good (record { outcome = ((refl, refl), refl) })
    ]
