-- ===== src/Service/Trade/Sizing/Cap.antt =====
-- The bounds of a sized position, and when sizing panics.
use mathlib.Core.Option.{some-injective}
use outbound_api.Prelude.{
  ◌≡◌, refl, ◌⊎◌, ◌↔◌, inl, inr, true, Option, none, some, arith, Bool-cases, if◌then◌else◌,
}
use outbound_api.Decimal.{Decimal, div, IsOrdered, ◌≼◌}
use outbound_api.Model.{Signal, AccountTransfer}
use outbound_api.Service.Trade.Sizing.{◌>>=◌, RiskParams, slot_quantity, size_position}

module _ {D : Type 0} ⦃dec : Decimal D⦄ where
  -- The quantity is at most the other one, both being there.
  abbrev AtMost : Option D → Option D → Type 0
  AtMost none cap = Unit
  AtMost (some q) none = ⊥
  AtMost (some q) (some cap) = q ≼ cap

module _ {D : Type 0} ⦃dec : Decimal D⦄ (laws : IsOrdered D) where
  capped : (q cap : D) → (if dec.gt q cap then cap else q) ≼ cap
  capped q cap = ground (arith, laws.gt_eq q cap, laws.le_refl cap)

  AtMost-refl : (o : Option D) → AtMost o o
  AtMost-refl none = tt
  AtMost-refl (some q) = laws.le_refl q

  AtMost-capped :
      (q : D) (o : Option D) → AtMost (o >>= λ cap. some (if dec.gt q cap then cap else q)) o
  AtMost-capped q none = tt
  AtMost-capped q (some cap) = capped q cap

  AtMost-slot_quantity :
      (cfg : RiskParams D) (signal : Signal D) (account : AccountTransfer D)
      → AtMost (size_position cfg signal account) (slot_quantity signal account)
  unfolding size_position
  AtMost-slot_quantity cfg signal account =
      elim (Bool-cases (dec.is_zero (dec.mul signal.indicators.atr cfg.atr_risk_multiplier))) [
        | inl no_atr ↦ rw no_atr (AtMost-refl (slot_quantity signal account))
        | inr atr ↦ rw atr (elim (Bool-cases (dec.gt signal.price_at_signal dec.naught)) [
          | inr no_price ↦ rw no_price (AtMost-refl (slot_quantity signal account))
          | inl priced ↦ rw priced (AtMost-capped _ (slot_quantity signal account))
        ])
      ]

  AtMost-some :
      (q : D) (o p : Option D) → p ≡ some q → AtMost p o → (cap : D) × (o ≡ some cap) × q ≼ cap
  AtMost-some q o none e h = cc
  AtMost-some q none (some q') e h = absurd h
  AtMost-some q (some cap) (some q') e h = (cap, refl, rw (← some-injective q' q e) h)

  bind-some :
      {A B : Type 0} (o : Option A) (f : A → Option B) (b : B)
      → (o >>= f) ≡ some b
      → (a : A) × (o ≡ some a) × (f a ≡ some b)
  bind-some none f b e = cc
  bind-some (some a) f b e = (a, refl, e)

  -- On ordered decimals, a position is at most the amount of the transfer divided by its target
  -- trades and by the price, both divisions succeeding, whatever the risk parameters, the ATR and the
  -- price are.
  pub size_position_capped :
      (cfg : RiskParams D) (signal : Signal D) (account : AccountTransfer D) (q : D)
      → size_position cfg signal account ≡ some q
      → (share : D) × (cap : D) × (div account.amount_usd (dec.from_int account.target_trades)
          ≡ some share)
        × (div share signal.price_at_signal ≡ some cap)
        × q ≼ cap
  unfolding slot_quantity
  size_position_capped cfg signal account q e =
      let (cap, slot, le) =
        AtMost-some q (slot_quantity signal account) (size_position cfg signal account) e
          (AtMost-slot_quantity cfg signal account) in
      let (share, shares, caps) =
        bind-some (div account.amount_usd (dec.from_int account.target_trades))
          (λ s. div s signal.price_at_signal) cap slot in
      (share, cap, shares, caps, le)

  -- On ordered decimals, sizing panics exactly if the number of target trades, as a decimal, is 0
  -- or the price is 0.
  pub size_position-none :
      (cfg : RiskParams D) (signal : Signal D) (account : AccountTransfer D)
      → (size_position cfg signal account ≡ none)
        ↔ (dec.is_zero (dec.from_int account.target_trades) ≡ true)
          ⊎ (dec.is_zero signal.price_at_signal ≡ true)
  unfolding size_position slot_quantity
  size_position-none cfg signal account = ground (
    arith,
    laws.gt_eq signal.price_at_signal dec.naught,
    laws.is_zero_eq signal.price_at_signal,
    laws.equal_eq signal.price_at_signal dec.naught,
  )
