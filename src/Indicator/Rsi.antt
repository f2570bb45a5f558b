-- ===== src/Indicator/Rsi.antt =====
-- internal/indicator/rsi.go, over the list of the changes from each price to the next.
pub mod Bounds
use outbound_api.Prelude.{
  ℕ, zero, suc, ◌-◌, List, [], ◌∷◌, ◌==◌, leb, length, take, drop, if◌then◌else◌,
}
use outbound_api.Decimal.{Decimal}
use outbound_api.Indicator.Calc.{Calc, value, failed, bad_period, not_enough_values, ◌>>=◌, divide}

module _ {D : Type 0} ⦃dec : Decimal D⦄ where
  -- `prices[i].Sub(prices[i-1])` for i from 1.
  abbrev pub changes_from : D → List D → List D
  changes_from prev [] = []
  changes_from prev (p ∷ ps) = dec.sub p prev ∷ changes_from p ps

  abbrev pub changes : List D → List D
  changes [] = []
  changes (p ∷ ps) = changes_from p ps

  unfoldable pub gain_of : D → D
  gain_of change = if dec.gt change dec.naught then change else dec.naught

  unfoldable pub loss_of : D → D
  loss_of change =
      if dec.gt change dec.naught
      then dec.naught
      else if dec.lt change dec.naught
      then dec.abs change
      else dec.naught

  -- The seed loop: a gain is added to one sum or a loss to the other, and a change of 0 to none.
  unfoldable pub add_gain : D → D → D
  add_gain sum change = if dec.gt change dec.naught then dec.add sum change else sum

  unfoldable pub add_loss : D → D → D
  add_loss sum change =
      if dec.gt change dec.naught
      then sum
      else if dec.lt change dec.naught
      then dec.add sum (dec.abs change)
      else sum

  abbrev pub sum_gains : D → List D → D
  sum_gains sum [] = sum
  sum_gains sum (c ∷ cs) = sum_gains (add_gain sum c) cs

  abbrev pub sum_losses : D → List D → D
  sum_losses sum [] = sum
  sum_losses sum (c ∷ cs) = sum_losses (add_loss sum c) cs

  -- `avg.Mul(periodMinus1).Add(x).Div(periodD)`
  abbrev pub wilder : ℕ → D → D → Calc D
  wilder period avg x =
      divide (dec.add (dec.mul avg (dec.from_int (period - 1))) x) (dec.from_int period)

  -- The second loop, over both averages.
  unfoldable pub smooth_averages : ℕ → D → D → List D → Calc (D × D)
  smooth_averages period gain loss [] = value (gain, loss)
  smooth_averages period gain loss (c ∷ cs) = wilder period gain (gain_of c) >>= λ gain'.
      wilder period loss (loss_of c) >>= λ loss'. smooth_averages period gain' loss' cs

  unfoldable pub index_of : D → D → Calc D
  index_of gain loss =
      if dec.is_zero loss
      then value (dec.from_int 100)
      else divide gain loss >>= λ rs.
          divide (dec.from_int 100) (dec.add (dec.from_int 1) rs) >>= λ part.
          value (dec.sub (dec.from_int 100) part)

  -- From the averages of the first `period` changes on.
  unfoldable pub rsi_of_averages : ℕ → List D → D → D → Calc D
  rsi_of_averages period rest gain loss =
      smooth_averages period gain loss rest >>= λ avg. index_of avg.0 avg.1

  unfoldable pub calculate_rsi : List D → ℕ → Calc D
  calculate_rsi prices period =
      if period == 0
      then failed bad_period
      else if leb (length prices) period
      then failed not_enough_values
      else divide (sum_gains dec.naught (take period (changes prices))) (dec.from_int period)
        >>= λ gain.
            divide (sum_losses dec.naught (take period (changes prices))) (dec.from_int period)
            >>= λ loss. rsi_of_averages period (drop period (changes prices)) gain loss
