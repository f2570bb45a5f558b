-- ===== src/Strategy/AdaptiveExit.antt =====
-- internal/strategy/adaptive_exit.go: the stop that the peak price, the entry and the ATR imply.
pub mod Tiers
use outbound_api.Prelude.{Bool, if◌then◌else◌}
use outbound_api.Decimal.{Decimal}

pub record AdaptiveExitParams (D : Type 0) : Type 0 where
  pub break_even_atr_trigger : D
  pub trail_atr_trigger : D
  pub trail_atr_distance : D

module _ {D : Type 0} ⦃dec : Decimal D⦄ where
  -- `if candidate.GreaterThan(eff) { eff = candidate }`
  unfoldable pub tighter : D → D → D
  tighter candidate eff = if dec.gt candidate eff then candidate else eff

  -- `peak.Sub(entry).Div(entryATR)`, at an ATR that is not zero.
  abbrev pub profit_atr : D → D → D → D
  profit_atr peak entry atr = dec.quo (dec.sub peak entry) atr

  unfoldable pub compute_adaptive_effective_stop : D → D → D → D → AdaptiveExitParams D → D
  compute_adaptive_effective_stop peak entry atr db_stop p =
      if dec.is_zero atr
      then db_stop
      else if dec.ge (profit_atr peak entry atr) p.trail_atr_trigger
      then tighter (dec.sub peak (dec.mul atr p.trail_atr_distance)) db_stop
      else if dec.ge (profit_atr peak entry atr) p.break_even_atr_trigger
      then tighter entry db_stop
      else db_stop
