-- ===== src/Indicator/Ema.antt =====
-- internal/indicator/ema.go. `period` is a number; a negative one is refused just as 0 is.
use outbound_api.Prelude.{ℕ, ◌+◌, List, [], ◌∷◌, ◌==◌, ltb, length, take, drop, if◌then◌else◌}
use outbound_api.Decimal.{Decimal}
use outbound_api.Indicator.Calc.{
  Calc, value, failed, bad_period, no_values, not_enough_values, ◌>>=◌, divide,
}

module _ {D : Type 0} ⦃dec : Decimal D⦄ where
  abbrev pub sum_from : D → List D → D
  sum_from acc [] = acc
  sum_from acc (x ∷ xs) = sum_from (dec.add acc x) xs

  unfoldable pub calculate_sma : List D → Calc D
  calculate_sma values = divide (sum_from dec.naught values) (dec.from_int (length values))

  -- The loop over `values[period:]`.
  abbrev pub smooth : D → D → List D → D
  smooth multiplier ema [] = ema
  smooth multiplier ema (x ∷ xs) =
      smooth multiplier (dec.add (dec.mul (dec.sub x ema) multiplier) ema) xs

  unfoldable pub calculate_ema : List D → ℕ → Calc D
  unfolding calculate_sma
  calculate_ema values period =
      if period == 0
      then failed bad_period
      else if length values == 0
      then failed no_values
      else if ltb (length values) period
      then failed not_enough_values
      else divide (dec.from_int 2) (dec.from_int (period + 1)) >>= λ multiplier.
          calculate_sma (take period values) >>= λ ema.
          value (smooth multiplier ema (drop period values))
