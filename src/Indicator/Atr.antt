-- ===== src/Indicator/Atr.antt =====
-- internal/indicator/atr.go: the bars, their true ranges, and the ATR as the EMA of these.
use outbound_api.Prelude.{
  ℕ, ◌+◌, ◌≡◌, refl, ap, suc, List, [], ◌∷◌, ◌==◌, ltb, length, if◌then◌else◌,
}
use outbound_api.Decimal.{Decimal}
use outbound_api.Indicator.Calc.{Calc, failed, bad_period, no_bars, too_few_bars}
use outbound_api.Indicator.Ema.{calculate_ema}

pub record Bar (D : Type 0) : Type 0 where
  pub high : D
  pub low : D
  pub close : D

module _ {D : Type 0} ⦃dec : Decimal D⦄ where
  unfoldable pub true_range : Bar D → D → D
  true_range bar prev_close =
      let high_low = dec.abs (dec.sub bar.high bar.low) in
      let high_prev = dec.abs (dec.sub bar.high prev_close) in
      let low_prev = dec.abs (dec.sub bar.low prev_close) in
      dec.max high_low (dec.max high_prev low_prev)

  -- The loop from `i := 1`, with the previous bar's close.
  abbrev pub true_ranges_from : D → List (Bar D) → List D
  true_ranges_from prev_close [] = []
  true_ranges_from prev_close (bar ∷ bars) =
      true_range bar prev_close ∷ true_ranges_from bar.close bars

  abbrev pub true_ranges : List (Bar D) → List D
  true_ranges [] = []
  true_ranges (bar ∷ bars) = true_ranges_from bar.close bars

  unfoldable pub calculate_atr : List (Bar D) → ℕ → Calc D
  calculate_atr bars period =
      if period == 0
      then failed bad_period
      else if length bars == 0
      then failed no_bars
      else if ltb (length bars) (period + 1)
      then failed too_few_bars
      else calculate_ema (true_ranges bars) period

  length-true_ranges_from :
      (prev_close : D) (bars : List (Bar D))
      → length (true_ranges_from prev_close bars) ≡ length bars
  length-true_ranges_from prev_close [] = refl
  length-true_ranges_from prev_close (bar ∷ bars) = ap suc (length-true_ranges_from bar.close bars)

  -- One true range less than bars.
  pub length-true_ranges :
      (bar : Bar D) (bars : List (Bar D)) → length (true_ranges (bar ∷ bars)) ≡ length bars
  length-true_ranges bar bars = length-true_ranges_from bar.close bars
