-- ===== src/Repository/Effects.antt =====
-- What each query of the repositories does to the tables of trades and transfers, by how it ends.
use outbound_api.Prelude.{
  ◌+◌, ℕ, ◌≡◌, refl, sym, true, false, ◌&&◌, [], ◌∷◌, ◌++◌, ◌==◌, any, Bool-cases, Option-cases,
  inl, inr, is_some_of, not,
}
use mathlib.Core.Path.{subst₂}
use outbound_api.Prelude.Table.{has_key, update, erase, update_absent}
use outbound_api.Model.{Trade, AccountTransfer}
use outbound_api.Repository.Store.{Env, World, next_tick}
use outbound_api.Repository.Outcome.{Ends, Tables, Holds}
use outbound_api.Repository.Trades.{
  stored, overwrite, trade_refusal, create_trade, update_trade, delete_trade,
}
use outbound_api.Repository.Transfers.{
  has_slot, taken, given, create_transfer, stored_transfer, decrement_remaining_trades,
  increment_remaining_trades,
}

module _ {D : Type 0} where
  abbrev pub SameTables : World D → World D → Type 0
  SameTables w v = (v.trades ≡ w.trades) × (v.transfers ≡ w.transfers)

  -- The same rows, signals and orders; only calls were made.
  abbrev pub Untouched : World D → World D → Type 0
  Untouched w v =
      SameTables w v × (v.signals ≡ w.signals) × (v.decisions ≡ w.decisions) × (v.orders ≡ w.orders)

  pub SameTables-Holds : (T : Tables D) (w v : World D) → SameTables w v → Holds T w → Holds T v
  SameTables-Holds T w v same h = subst₂ T (sym same.0) (sym same.1) h

  module _ (env : Env D) where
    pub create_trade_effect :
        (t : Trade D) (w : World D)
        → Ends
            (λ _ v.
              (has_key (λ r. r.id) t.id w.trades ≡ false)
              × (v.trades ≡ w.trades ++ (stored env t ∷ []))
              × (v.transfers ≡ w.transfers))
            (SameTables w)
            (create_trade env t w)
    unfolding create_trade
    create_trade_effect t w = elim (Bool-cases (env.db_fails w.tick)) [
      | inl bad ↦ rw bad (record { outcome = (refl, refl) })
      | inr good ↦ rw good (elim (Bool-cases (has_key (λ r. r.id) t.id w.trades)) [
        | inl clash ↦ rw clash (record { outcome = (refl, refl) })
        | inr fresh ↦ rw fresh (elim (Option-cases (trade_refusal (next_tick w) t)) [
          | inl accepted ↦ rw accepted (record { outcome = (refl, refl, refl) })
          | inr (e, refused) ↦ rw refused (record { outcome = (refl, refl) })
        ])
      ])
    ]

    pub update_trade_effect :
        (t : Trade D) (w : World D)
        → Ends
            (λ _ v.
              (v.trades ≡ update (λ r. r.id) t.id (overwrite env t) w.trades)
              × (v.transfers ≡ w.transfers))
            (SameTables w)
            (update_trade env t w)
    unfolding update_trade
    update_trade_effect t w = elim (Bool-cases (env.db_fails w.tick)) [
      | inl bad ↦ rw bad (record { outcome = (refl, refl) })
      | inr good ↦ rw good (elim (Bool-cases (has_key (λ r. r.id) t.id w.trades)) [
        | inl present ↦ rw present (elim (Option-cases (trade_refusal (next_tick w) t)) [
          | inl accepted ↦ rw accepted (record { outcome = (refl, refl) })
          | inr (e, refused) ↦ rw refused (record { outcome = (refl, refl) })
        ])
        | inr absent ↦ rw absent (record {
          outcome = (sym (update_absent (λ r. r.id) t.id (overwrite env t) w.trades absent), refl);
        })
      ])
    ]

    pub delete_trade_effect :
        (id : ℕ) (w : World D)
        → Ends
            (λ _ v. (v.trades ≡ erase (λ r. r.id) id w.trades) × (v.transfers ≡ w.transfers))
            (SameTables w)
            (delete_trade env id w)
    unfolding delete_trade
    delete_trade_effect id w = elim (Bool-cases (env.db_fails w.tick)) [
      | inl bad ↦ rw bad (record { outcome = (refl, refl) })
      | inr good ↦
          rw good
            (elim (Bool-cases (any (λ r. not (r.id == id) && is_some_of id r.parent_id) w.trades)) [
              | inl child ↦ rw child (record { outcome = (refl, refl) })
              | inr alone ↦ rw alone (record { outcome = (refl, refl) })
            ])
    ]

    pub decrement_effect :
        (id : ℕ) (w : World D)
        → Ends
            (λ _ v.
              (any (λ t. t.id == id && has_slot t.remaining_trades) w.transfers ≡ true)
              × (v.trades ≡ w.trades)
              × (v.transfers ≡ update (λ t. t.id) id (taken (env.now w.tick)) w.transfers))
            (SameTables w)
            (decrement_remaining_trades env id w)
    unfolding decrement_remaining_trades
    decrement_effect id w = elim (Bool-cases (env.db_fails (w.tick + 1))) [
      | inl bad ↦ rw bad (record { outcome = (refl, refl) })
      | inr good ↦
          rw good
            (elim (Bool-cases (any (λ t. t.id == id && has_slot t.remaining_trades) w.transfers)) [
              | inl free ↦ rw free (record { outcome = (refl, refl, refl) })
              | inr full ↦ rw full (record { outcome = (refl, refl) })
            ])
    ]

    pub increment_effect :
        (id : ℕ) (w : World D)
        → Ends
            (λ _ v.
              (has_key (λ t. t.id) id w.transfers ≡ true)
              × (v.trades ≡ w.trades)
              × (v.transfers ≡ update (λ t. t.id) id (given (env.now w.tick)) w.transfers))
            (SameTables w)
            (increment_remaining_trades env id w)
    unfolding increment_remaining_trades
    increment_effect id w = elim (Bool-cases (env.db_fails (w.tick + 1))) [
      | inl bad ↦ rw bad (record { outcome = (refl, refl) })
      | inr good ↦ rw good (elim (Bool-cases (has_key (λ t. t.id) id w.transfers)) [
        | inl known ↦ rw known (record { outcome = (refl, refl, refl) })
        | inr unknown ↦ rw unknown (record { outcome = (refl, refl) })
      ])
    ]

    pub create_transfer_effect :
        (t : AccountTransfer D) (w : World D)
        → Ends
            (λ _ v.
              (has_key (λ r. r.id) t.id w.transfers ≡ false)
              × (v.trades ≡ w.trades)
              × (v.transfers ≡ w.transfers ++ (stored_transfer env t ∷ [])))
            (SameTables w)
            (create_transfer env t w)
    unfolding create_transfer
    create_transfer_effect t w = elim (Bool-cases (env.db_fails w.tick)) [
      | inl bad ↦ rw bad (record { outcome = (refl, refl) })
      | inr good ↦ rw good (elim (Bool-cases (has_key (λ r. r.id) t.id w.transfers)) [
        | inl clash ↦ rw clash (record { outcome = (refl, refl) })
        | inr fresh ↦ rw fresh (record { outcome = (refl, refl, refl) })
      ])
    ]
