-- ===== src/Indicator/Cache/Seed.antt =====
-- Seeding from enough bars: no calculation fails or panics, and the state is stored.
use text.Mathlib.TextPositions.{eq_refl}
use text.Mathlib.TextEquality.{eq_iff}
use outbound_api.Prelude.{
  String, str_eq, Bool-cases, inl, inr, ◌≢◌, ℕ, zero, suc, ◌+◌, ◌-◌, ◌≤◌, ◌<◌, ◌≡◌, ◌≢◌, refl, ap,
  true, false, some, List, [], ◌∷◌, map, arith, ◌==◌, ltb, length, take, drop,
}
use outbound_api.Decimal.{Decimal, IsOrdered}
use outbound_api.Indicator.Calc.{
  value, divide, ◌>>=◌, IsSigned, Gives, Gives-bind, positive_not_zero, suc_not_zero,
}
use outbound_api.Indicator.Ema.{calculate_sma, sum_from, smooth, calculate_ema}
use outbound_api.Indicator.Rsi.{calculate_rsi}
use outbound_api.Indicator.Rsi.Bounds.{IsPercentage, calculate_rsi-bounds}
use outbound_api.Indicator.Atr.{Bar, true_ranges, length-true_ranges, calculate_atr}
use outbound_api.Indicator.Cache.{IndicatorState, IndicatorCache, store, get, indicators_of, seed}

length-map : {A B : Type 0} (f : A → B) (xs : List A) → length (map f xs) ≡ length xs
length-map f [] = refl
length-map f (x ∷ xs) = ap suc (length-map f xs)

length-take : {A : Type 0} (n : ℕ) (xs : List A) → n ≤ length xs → length (take n xs) ≡ n
length-take zero xs h = refl
length-take (suc n) [] h = omega arith
length-take (suc n) (x ∷ xs) h = ap suc (length-take n xs (omega arith))

ltb-false : (a b : ℕ) → b ≤ a → ltb a b ≡ false
ltb-false a b h = ground arith

nonempty : (a b : ℕ) → suc b ≤ a → (a == 0) ≡ false
nonempty a b h = ground arith

plus_one : (n : ℕ) → n + 1 ≡ suc n
plus_one n = omega arith

minus_one : (n : ℕ) → suc n - 1 ≡ n
minus_one n = omega arith

str_eq_refl : (s : String) → str_eq s s ≡ true
str_eq_refl s = eq_refl s

str_eq_ne : (s t : String) → s ≢ t → str_eq s t ≡ false
str_eq_ne s t ne = elim (Bool-cases (str_eq s t)) [
  | inl same ↦ absurd (ne ((eq_iff s t).0 same))
  | inr other ↦ other
]

module _ {D : Type 0} ⦃dec : Decimal D⦄ where
  -- What holds of the state that a seeding stores.
  abbrev pub InRange : IndicatorState D → Type 0
  InRange state = IsPercentage state.rsi × IsPercentage state.rsi_prev

  abbrev closes : List (Bar D) → List D
  closes bars = map (λ bar. bar.close) bars

  -- A cache in which one symbol has a state in range and the others what they had.
  abbrev pub Stored : String → IndicatorCache D → IndicatorCache D → Type 0
  Stored symbol cache cache' =
      ((state : IndicatorState D) × ((get cache' symbol ≡ some state) × InRange state))
      × ((other : String) → other ≢ symbol → get cache' other ≡ get cache other)

  store-Stored :
      (symbol : String) (state : IndicatorState D) (cache : IndicatorCache D)
      → InRange state
      → Stored symbol cache (store symbol state cache)
  unfolding store get
  store-Stored symbol state cache p =
      ((state, (rw (str_eq_refl symbol) refl, p)), λ other ne. rw (str_eq_ne other symbol ne) refl)

module _ {D : Type 0} ⦃dec : Decimal D⦄ (laws : IsOrdered D) (signs : IsSigned D) where
  abbrev Any : D → Type 0
  Any x = Unit

  divide_by_count : (x : D) (n : ℕ) → Gives Any (divide x (dec.from_int (suc n)))
  divide_by_count x n = rw (positive_not_zero laws (dec.from_int (suc n)) (signs.from_int_pos n)) tt

  sma_total : (values : List D) (n : ℕ) → length values ≡ suc n → Gives Any (calculate_sma values)
  unfolding calculate_sma
  sma_total values n h = rw h (divide_by_count (sum_from dec.naught values) n)

  ema_total :
      (values : List D) (n : ℕ) → suc n ≤ length values → Gives Any (calculate_ema values (suc n))
  unfolding calculate_ema
  ema_total values n h =
      rw (suc_not_zero n, nonempty (length values) n h, ltb-false (length values) (suc n) h)
        (Gives-bind {P = Any} Any (divide (dec.from_int 2) (dec.from_int (suc n + 1)))
          (λ multiplier. calculate_sma (take (suc n) values) >>= λ ema.
            value (smooth multiplier ema (drop (suc n) values)))
          (rw (plus_one (suc n)) (divide_by_count (dec.from_int 2) (suc n)))
          λ multiplier _.
            Gives-bind {P = Any} Any (calculate_sma (take (suc n) values))
              (λ ema. value (smooth multiplier ema (drop (suc n) values)))
              (sma_total _ n (length-take (suc n) values h)) λ ema _. tt)

  atr_total :
      (bar : Bar D) (bars : List (Bar D)) (n : ℕ)
      → suc n ≤ length bars
      → Gives Any (calculate_atr (bar ∷ bars) (suc n))
  unfolding calculate_atr
  atr_total bar bars n h =
      rw
        (
          suc_not_zero n,
          suc_not_zero (length bars),
          ltb-false (suc (length bars)) (suc n + 1) (omega arith),
        )
        (ema_total (true_ranges (bar ∷ bars)) n (rw (length-true_ranges bar bars) h))

  indicators_total :
      (bar : Bar D) (bars : List (Bar D)) (e r a : ℕ)
      → e ≤ length bars
      → suc r < length bars
      → suc a ≤ length bars
      → Gives InRange (indicators_of (bar ∷ bars) (suc e) (suc r) (suc a))
  unfolding indicators_of
  indicators_total bar bars e r a enough_ema enough_rsi enough_atr =
      rw
        (
          suc_not_zero (length bars),
          length-map (λ (bar : Bar D). bar.close) bars,
          ltb-false (suc (length bars)) (suc r + 2) (omega arith),
          minus_one (length bars),
        )
        (Gives-bind {P = Any} InRange (calculate_ema (closes (bar ∷ bars)) (suc e)) _
          (ema_total (closes (bar ∷ bars)) e
            (rw (length-map (λ (bar : Bar D). bar.close) bars) (omega (arith, enough_ema))))
          λ ema _.
            Gives-bind {P = IsPercentage} InRange
              (calculate_rsi (take (length bars) (closes (bar ∷ bars))) (suc r)) _
              (calculate_rsi-bounds laws signs _ r (
                rw
                  (length-take (length bars) (closes (bar ∷ bars))
                    (rw (length-map (λ (bar : Bar D). bar.close) bars) (omega arith)))
                  enough_rsi))
              λ rsi_prev p.
                Gives-bind {P = IsPercentage} InRange (calculate_rsi (closes (bar ∷ bars)) (suc r))
                  _
                  (calculate_rsi-bounds laws signs _ r
                    (rw (length-map (λ (bar : Bar D). bar.close) bars) (omega (arith, enough_rsi))))
                  λ rsi q.
                    Gives-bind {P = Any} InRange (calculate_atr (bar ∷ bars) (suc a)) _
                      (atr_total bar bars a enough_atr) λ atr _. (q, p))

  -- On decimals with the laws of order and signs, `Seed` with periods of at least 1, at least as
  -- many bars as the EMA's period, two more than the RSI's and one more than the ATR's succeeds,
  -- without a panic. `Get` then gives a state of the symbol in which both RSIs are numbers from 0
  -- to 100, and gives for every other symbol what it gave.
  pub seed-get :
      (symbol : String) (bar : Bar D) (bars : List (Bar D)) (e r a : ℕ) (cache : IndicatorCache D)
      → e ≤ length bars
      → suc r < length bars
      → suc a ≤ length bars
      → Gives (Stored symbol cache) (seed symbol (bar ∷ bars) (suc e) (suc r) (suc a) cache)
  unfolding seed
  seed-get symbol bar bars e r a cache enough_ema enough_rsi enough_atr =
      Gives-bind {P = InRange} (Stored symbol cache)
        (indicators_of (bar ∷ bars) (suc e) (suc r) (suc a))
        (λ state. value (store symbol state cache))
        (indicators_total bar bars e r a enough_ema enough_rsi enough_atr)
        λ state p. store-Stored symbol state cache p
