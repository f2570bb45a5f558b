-- ===== src/Strategy/AdaptiveExit/Tiers.antt =====
-- The adaptive stop never lies below the static one. Along a rising peak it never moves down either,
-- if the trailing distance is less than the trailing trigger; else it can drop where the trailing
-- tier takes over from the break-even tier.
use outbound_api.Prelude.{◌≡◌, inl, inr, true, false, arith}
use outbound_api.Decimal.{Decimal, IsOrdered, IsArithmetic, ◌≼◌}
use outbound_api.Strategy.AdaptiveExit.{
  AdaptiveExitParams, tighter, profit_atr, compute_adaptive_effective_stop,
}

module _ {D : Type 0} ⦃dec : Decimal D⦄ (laws : IsOrdered D) where
  le-tighter_right : (x e : D) → e ≼ tighter x e
  unfolding tighter
  le-tighter_right x e = ground (arith, laws.gt_eq x e, laws.le_refl e, laws.le_total x e)

  le-tighter_left : (x e : D) → x ≼ tighter x e
  unfolding tighter
  le-tighter_left x e = ground (arith, laws.gt_eq x e, laws.le_refl x)

  tighter-le : (x e b : D) → x ≼ b → e ≼ b → tighter x e ≼ b
  unfolding tighter
  tighter-le x e b h k = ground arith

  tighter_mono : (x y e : D) → x ≼ y → tighter x e ≼ tighter y e
  tighter_mono x y e h =
      tighter-le x e (tighter y e) (laws.le_trans x y (tighter y e) h (le-tighter_left y e))
        (le-tighter_right y e)

  -- On ordered decimals, whatever the peak, the entry, the ATR and the parameters are, the adaptive
  -- stop is at least the static stop.
  db_stop-le :
      (peak entry atr db_stop : D) (p : AdaptiveExitParams D)
      → db_stop ≼ compute_adaptive_effective_stop peak entry atr db_stop p
  unfolding compute_adaptive_effective_stop
  db_stop-le peak entry atr db_stop p = ground (
    arith,
    laws.le_refl db_stop,
    le-tighter_right (dec.sub peak (dec.mul atr p.trail_atr_distance)) db_stop,
    le-tighter_right entry db_stop,
  )

  is_zero_of_gt : (x : D) → dec.gt x dec.naught ≡ true → dec.is_zero x ≡ false
  is_zero_of_gt x h =
      ground (arith, laws.is_zero_eq x, laws.equal_eq x dec.naught, laws.gt_eq x dec.naught)

  module _ (ring : IsArithmetic D) (entry atr db_stop : D) (p : AdaptiveExitParams D)
      (positive : dec.gt atr dec.naught ≡ true) where
    -- The price at which the trailing stop sits.
    abbrev trail : D → D
    trail peak = dec.sub peak (dec.mul atr p.trail_atr_distance)

    profit_mono : (x y : D) → x ≼ y → profit_atr x entry atr ≼ profit_atr y entry atr
    profit_mono x y h =
        ring.quo_mono (dec.sub x entry) (dec.sub y entry) atr positive (ring.sub_mono x y entry h)

    -- At a profit above the trailing distance the trailing stop is at least the entry.
    entry-le-trail :
        (peak : D)
        → dec.quo (dec.mul atr p.trail_atr_distance) atr ≼ p.trail_atr_distance
        → dec.lt p.trail_atr_distance p.trail_atr_trigger ≡ true
        → dec.ge (profit_atr peak entry atr) p.trail_atr_trigger ≡ true
        → entry ≼ trail peak
    entry-le-trail peak exact near trails =
        let m : D = dec.mul atr p.trail_atr_distance in
        let gain : D = dec.sub peak entry in
        elim (laws.le_total m gain) [
          | inl below ↦ ring.sub_swap peak m entry below
          | inr above ↦
              let small =
                laws.le_trans (dec.quo gain atr) (dec.quo m atr) p.trail_atr_distance
                  (ring.quo_mono gain m atr positive above) exact in
              ground (
                arith,
                laws.ge_eq (dec.quo gain atr) p.trail_atr_trigger,
                laws.lt_eq p.trail_atr_distance p.trail_atr_trigger,
                laws.le_trans p.trail_atr_trigger (dec.quo gain atr) p.trail_atr_distance,
              )
        ]

    -- On ordered decimals with monotone differences and quotients, for a positive ATR and a
    -- trailing distance below the trailing trigger (in ATR units, and exact as a quotient), a
    -- higher peak never gives a lower stop.
    pub effective_stop_mono :
        (low high : D)
        → dec.quo (dec.mul atr p.trail_atr_distance) atr ≼ p.trail_atr_distance
        → dec.lt p.trail_atr_distance p.trail_atr_trigger ≡ true
        → low ≼ high
        → compute_adaptive_effective_stop low entry atr db_stop p
          ≼ compute_adaptive_effective_stop high entry atr db_stop p
    unfolding compute_adaptive_effective_stop
    effective_stop_mono low high exact near h = ground (
      arith,
      is_zero_of_gt atr positive,
      profit_mono low high h,
      laws.ge_eq (profit_atr low entry atr) p.trail_atr_trigger,
      laws.ge_eq (profit_atr high entry atr) p.trail_atr_trigger,
      laws.ge_eq (profit_atr low entry atr) p.break_even_atr_trigger,
      laws.ge_eq (profit_atr high entry atr) p.break_even_atr_trigger,
      laws.le_trans p.trail_atr_trigger (profit_atr low entry atr) (profit_atr high entry atr),
      laws.le_trans p.break_even_atr_trigger (profit_atr low entry atr) (profit_atr high entry atr),
      tighter_mono (trail low) (trail high) db_stop
          (ring.sub_mono low high (dec.mul atr p.trail_atr_distance) h),
      tighter_mono entry (trail high) db_stop,
      entry-le-trail high exact near,
      laws.le_refl db_stop,
      laws.le_refl (tighter entry db_stop),
      le-tighter_right entry db_stop,
      le-tighter_right (trail high) db_stop,
    )

    -- On ordered decimals and for a positive ATR, the stop at a peak in the trailing tier is below
    -- the stop at a peak in the break-even tier, if the entry is above the static stop and the
    -- trailing stop still below the entry.
    pub effective_stop_drops :
        (low high : D)
        → dec.ge (profit_atr low entry atr) p.trail_atr_trigger ≡ false
        → dec.ge (profit_atr low entry atr) p.break_even_atr_trigger ≡ true
        → dec.ge (profit_atr high entry atr) p.trail_atr_trigger ≡ true
        → dec.gt entry db_stop ≡ true
        → dec.lt (trail high) entry ≡ true
        → dec.lt
            (compute_adaptive_effective_stop high entry atr db_stop p)
            (compute_adaptive_effective_stop low entry atr db_stop p)
          ≡ true
    unfolding compute_adaptive_effective_stop tighter
    effective_stop_drops low high not_yet even trails above below = ground (
      arith,
      is_zero_of_gt atr positive,
      laws.gt_eq entry db_stop,
      laws.gt_eq (trail high) db_stop,
      laws.lt_eq (trail high) entry,
      laws.lt_eq db_stop entry,
    )
