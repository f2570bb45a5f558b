-- ===== src/Indicator/Rsi/Bounds.antt =====
-- The RSI of enough prices is a number from 0 to 100: no division panics on the way.
use outbound_api.Prelude.{
  ℕ, suc, ◌<◌, ◌≡◌, true, false, List, [], ◌∷◌, arith, length, take, drop, Bool-cases, inl, inr,
}
use outbound_api.Decimal.{Decimal, IsOrdered, ◌≼◌}
use outbound_api.Indicator.Calc.{
  value, divide, ◌>>=◌, IsSigned, Gives, Gives-bind, NonNeg, leb-false, suc_not_zero,
  positive_not_zero, divide_nonneg,
}
use outbound_api.Indicator.Rsi.{
  changes, gain_of, loss_of, add_gain, add_loss, sum_gains, sum_losses, wilder, smooth_averages,
  index_of, rsi_of_averages, calculate_rsi,
}

module _ {D : Type 0} ⦃dec : Decimal D⦄ where
  abbrev pub IsPercentage : D → Type 0
  IsPercentage x = (dec.naught ≼ x) × (x ≼ dec.from_int 100)

module _ {D : Type 0} ⦃dec : Decimal D⦄ (laws : IsOrdered D) (signs : IsSigned D) where
  gain_nonneg : (c : D) → NonNeg (gain_of c)
  unfolding gain_of
  gain_nonneg c =
      ground (arith, laws.gt_eq c dec.naught, laws.le_refl dec.naught, laws.le_total c dec.naught)

  loss_nonneg : (c : D) → NonNeg (loss_of c)
  unfolding loss_of
  loss_nonneg c = ground (arith, laws.le_refl dec.naught, signs.abs_nonneg c)

  add_gain_nonneg : (s c : D) → NonNeg s → NonNeg (add_gain s c)
  unfolding add_gain
  add_gain_nonneg s c h =
      ground (arith, laws.gt_eq c dec.naught, laws.le_total c dec.naught, signs.add_nonneg s c h)

  add_loss_nonneg : (s c : D) → NonNeg s → NonNeg (add_loss s c)
  unfolding add_loss
  add_loss_nonneg s c h = ground (arith, signs.add_nonneg s (dec.abs c) h, signs.abs_nonneg c)

  sum_gains_nonneg : (s : D) (cs : List D) → NonNeg s → NonNeg (sum_gains s cs)
  sum_gains_nonneg s [] h = h
  sum_gains_nonneg s (c ∷ cs) h = sum_gains_nonneg (add_gain s c) cs (add_gain_nonneg s c h)

  sum_losses_nonneg : (s : D) (cs : List D) → NonNeg s → NonNeg (sum_losses s cs)
  sum_losses_nonneg s [] h = h
  sum_losses_nonneg s (c ∷ cs) h = sum_losses_nonneg (add_loss s c) cs (add_loss_nonneg s c h)

  wilder_nonneg : (n : ℕ) (avg x : D) → NonNeg avg → NonNeg x → Gives NonNeg (wilder (suc n) avg x)
  wilder_nonneg n avg x h k =
      divide_nonneg laws signs _ _
        (signs.add_nonneg _ x (signs.mul_nonneg avg _ h (signs.from_int_nonneg _)) k)
        (signs.from_int_pos n)

  smooth_nonneg :
      (n : ℕ) (gain loss : D) (cs : List D)
      → NonNeg gain
      → NonNeg loss
      → Gives (λ avg. NonNeg avg.0 × NonNeg avg.1) (smooth_averages (suc n) gain loss cs)
  unfolding smooth_averages
  smooth_nonneg n gain loss [] g l = (g, l)
  smooth_nonneg n gain loss (c ∷ cs) g l =
      Gives-bind {P = NonNeg} (λ avg. NonNeg avg.0 × NonNeg avg.1) (wilder (suc n) gain (gain_of c))
        _ (wilder_nonneg n gain (gain_of c) g (gain_nonneg c))
        λ gain' g'.
          Gives-bind {P = NonNeg} (λ avg. NonNeg avg.0 × NonNeg avg.1)
            (wilder (suc n) loss (loss_of c)) _ (wilder_nonneg n loss (loss_of c) l (loss_nonneg c))
            λ loss' l'. smooth_nonneg n gain' loss' cs g' l'

  nonzero_positive : (y : D) → NonNeg y → dec.is_zero y ≡ false → dec.gt y dec.naught ≡ true
  nonzero_positive y h z =
      ground (arith, laws.gt_eq y dec.naught, laws.is_zero_eq y, laws.equal_eq y dec.naught)

  -- 1 plus a ratio is at least 1 and above 0.
  one_plus_positive : (rs : D) → NonNeg rs → dec.gt (dec.add (dec.from_int 1) rs) dec.naught ≡ true
  one_plus_positive rs h = ground (
    arith,
    laws.gt_eq (dec.add (dec.from_int 1) rs) dec.naught,
    laws.gt_eq (dec.from_int 1) dec.naught,
    signs.from_int_pos 0,
    signs.le-add_left (dec.from_int 1) rs h,
    laws.le_trans (dec.from_int 1) (dec.add (dec.from_int 1) rs) dec.naught,
  )

  share_bounds :
      (rs : D)
      → NonNeg rs
      → Gives IsPercentage (divide (dec.from_int 100) (dec.add (dec.from_int 1) rs))
  share_bounds rs h =
      rw (positive_not_zero laws (dec.add (dec.from_int 1) rs) (one_plus_positive rs h)) (
        signs.quo_nonneg _ _ (signs.from_int_nonneg 100) (one_plus_positive rs h),
        signs.quo-le 100 _ (signs.le-add_left (dec.from_int 1) rs h),
      )

  share_of_ratio :
      (rs : D)
      → NonNeg rs
      → Gives IsPercentage (
          divide (dec.from_int 100) (dec.add (dec.from_int 1) rs) >>= λ part.
          value (dec.sub (dec.from_int 100) part))
  share_of_ratio rs h =
      Gives-bind {P = IsPercentage} IsPercentage
        (divide (dec.from_int 100) (dec.add (dec.from_int 1) rs)) _ (share_bounds rs h)
        λ part p.
          (signs.sub_nonneg (dec.from_int 100) part p.1, signs.sub-le (dec.from_int 100) part p.0)

  index_bounds :
      (gain loss : D) → NonNeg gain → NonNeg loss → Gives IsPercentage (index_of gain loss)
  unfolding index_of
  index_bounds gain loss g l = elim (Bool-cases (dec.is_zero loss)) [
    | inl none_lost ↦ rw none_lost (signs.from_int_nonneg 100, laws.le_refl (dec.from_int 100))
    | inr some_lost ↦
        rw some_lost
          (share_of_ratio _ (signs.quo_nonneg gain loss g (nonzero_positive loss l some_lost)))
  ]

  average_nonneg : (n : ℕ) (s : D) → NonNeg s → Gives NonNeg (divide s (dec.from_int (suc n)))
  average_nonneg n s h = divide_nonneg laws signs s _ h (signs.from_int_pos n)

  averages_bounds :
      (n : ℕ) (rest : List D) (gain loss : D)
      → NonNeg gain
      → NonNeg loss
      → Gives IsPercentage (rsi_of_averages (suc n) rest gain loss)
  unfolding rsi_of_averages
  averages_bounds n rest gain loss g l =
      Gives-bind {P = λ avg. NonNeg avg.0 × NonNeg avg.1} IsPercentage
        (smooth_averages (suc n) gain loss rest) _ (smooth_nonneg n gain loss rest g l)
        λ avg p. index_bounds avg.0 avg.1 p.0 p.1

  -- From the averages of the early changes over the later ones.
  seed_bounds :
      (n : ℕ) (early late : List D)
      → Gives IsPercentage (
          divide (sum_gains dec.naught early) (dec.from_int (suc n)) >>= λ gain.
          divide (sum_losses dec.naught early) (dec.from_int (suc n)) >>= λ loss.
          rsi_of_averages (suc n) late gain loss)
  seed_bounds n early late =
      Gives-bind {P = NonNeg} IsPercentage (divide (sum_gains dec.naught early) _)
        (λ gain. divide (sum_losses dec.naught early) (dec.from_int (suc n)) >>= λ loss.
          rsi_of_averages (suc n) late gain loss)
        (average_nonneg n _ (sum_gains_nonneg dec.naught early (laws.le_refl dec.naught)))
        λ gain g.
          Gives-bind {P = NonNeg} IsPercentage (divide (sum_losses dec.naught early) _)
            (λ loss. rsi_of_averages (suc n) late gain loss)
            (average_nonneg n _ (sum_losses_nonneg dec.naught early (laws.le_refl dec.naught)))
            λ loss l. averages_bounds n late gain loss g l

  -- On decimals with the laws of order and signs, for a period of at least 1 and more prices than
  -- the period, `CalculateRSI` gives a number from 0 to 100: it neither fails nor panics, whatever
  -- the prices are.
  pub calculate_rsi-bounds :
      (prices : List D) (n : ℕ)
      → suc n < length prices
      → Gives IsPercentage (calculate_rsi prices (suc n))
  unfolding calculate_rsi
  calculate_rsi-bounds prices n h =
      rw (suc_not_zero n, leb-false (length prices) (suc n) h)
        (seed_bounds n (take (suc n) (changes prices)) (drop (suc n) (changes prices)))
