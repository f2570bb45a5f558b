-- ===== src/Service/Signal/Gates.antt =====
-- When a bar yields a buy signal: the layers of the evaluation and of the shadow preview.
use outbound_api.Prelude.{
  ◌+◌, ◌≡◌, refl, Bool, true, false, not, ◌&&◌, Option, none, some, String, any, is_present,
  Bool-cases, Option-cases, inl, inr, if◌then◌else◌,
}
use outbound_api.Decimal.{Decimal}
use outbound_api.Model.{Signal}
use outbound_api.Repository.Store.{Env, World, next_tick, ◌>>=◌, pure, new_uuid, time_now}
use outbound_api.Repository.Outcome.{Ends, Ends-bind}
use outbound_api.Repository.Effects.{SameTables, Untouched}
use outbound_api.Repository.Reads.{create_signal-Reads}
use outbound_api.Repository.Trades.{is_open_position, has_open_position}
use outbound_api.Repository.Signals.{create_signal}
use outbound_api.Indicator.Cache.{IndicatorState, IndicatorCache, get}
use outbound_api.Service.Signal.{
  Verdict, Provider, analyze, buy_signal_of, keep_signal, conclude_evaluation, conclude_preview,
  evaluate_layers, preview_layers, evaluate_buy_signal, preview_buy_signal,
}

abbrev pub is_positive : Option Verdict → Bool
is_positive none = false
is_positive (some v) = v.positive

module _ {D : Type 0} ⦃dec : Decimal D⦄ where
  -- Trend and momentum on the cached state.
  abbrev pub live_layers : D → Option (IndicatorState D) → Bool
  live_layers price none = false
  live_layers price (some s) = dec.gt price s.ema && dec.lt s.rsi (dec.from_int 35)

  abbrev pub shadow_layers : D → Option (IndicatorState D) → Bool
  shadow_layers price none = false
  shadow_layers price (some s) =
      dec.gt price s.ema && dec.lt s.rsi_prev (dec.from_int 35) && dec.ge s.rsi (dec.from_int 35)

  abbrev pub is_flat : World D → String → Bool
  is_flat w symbol = not (any (is_open_position w.trades symbol) w.trades)

  -- What a result tells: a signal exactly if the test holds, and what was left alone.
  abbrev pub Tells : Bool → (World D → Type 0) → Option (Signal D) → World D → Type 0
  Tells b P o v = (is_present o ≡ b) × P v

  module _ (env : Env D) where
    open_position_effect :
        (symbol : String) (w : World D) (P : World D → Type 0)
        → P (next_tick w)
        → Ends
            (λ b v. (b ≡ any (is_open_position w.trades symbol) w.trades) × (v ≡ next_tick w))
            P
            (has_open_position env symbol w)
    unfolding has_open_position
    open_position_effect symbol w P p = elim (Bool-cases (env.db_fails w.tick)) [
      | inl bad ↦ rw bad (record { outcome = p })
      | inr good ↦ rw good (record { outcome = (refl, refl) })
    ]

    analyze_effect :
        (provider : Provider) (symbol : String) (w : World D) (P : World D → Type 0)
        → P (next_tick w)
        → Ends
            (λ verdict v. (provider w.tick symbol ≡ some verdict) × (v ≡ next_tick w))
            P
            (analyze provider symbol w)
    unfolding analyze
    analyze_effect provider symbol w P p = elim (Option-cases (provider w.tick symbol)) [
      | inl no_news ↦ rw (no_news, analyze) (record { outcome = p })
      | inr (verdict, news) ↦ rw (news, analyze) (record { outcome = (refl, refl) })
    ]

    keep_signal_effect :
        (signal : Signal D) (w : World D)
        → Ends (Tells true (SameTables w)) (SameTables w) (keep_signal env signal w)
    unfolding keep_signal
    keep_signal_effect signal w =
        Ends-bind (create_signal env signal) (λ _. pure (some signal)) w
          (create_signal-Reads env signal w) λ _ v same. record { outcome = (refl, same) }

    conclude_evaluation_effect :
        (symbol : String) (price : D) (s : IndicatorState D) (verdict : Verdict) (w : World D)
        → Ends
            (Tells verdict.positive (SameTables w))
            (SameTables w)
            (conclude_evaluation env symbol price s verdict w)
    unfolding conclude_evaluation buy_signal_of new_uuid time_now
    conclude_evaluation_effect symbol price s verdict w = elim (Bool-cases verdict.positive) [
      | inl good ↦ rw good (keep_signal_effect _ (next_tick (next_tick w)))
      | inr bad ↦ rw bad (record { outcome = (refl, (refl, refl)) })
    ]

    conclude_preview_effect :
        (symbol : String) (price : D) (s : IndicatorState D) (verdict : Verdict) (w : World D)
        → Ends
            (Tells verdict.positive (Untouched w))
            (Untouched w)
            (conclude_preview env symbol price s verdict w)
    unfolding conclude_preview buy_signal_of new_uuid time_now
    conclude_preview_effect symbol price s verdict w = elim (Bool-cases verdict.positive) [
      | inl good ↦ rw good (record { outcome = (refl, ((refl, refl), refl, refl, refl)) })
      | inr bad ↦ rw bad (record { outcome = (refl, ((refl, refl), refl, refl, refl)) })
    ]

    analyze-conclude_evaluation :
        (provider : Provider) (symbol : String) (price : D) (s : IndicatorState D) (w : World D)
        → Ends
            (Tells (is_positive (provider w.tick symbol)) (SameTables w))
            (SameTables w)
            ((analyze provider symbol >>= conclude_evaluation env symbol price s) w)
    analyze-conclude_evaluation provider symbol price s w =
        Ends-bind (analyze provider symbol) (conclude_evaluation env symbol price s) w
          {P = λ verdict v. (provider w.tick symbol ≡ some verdict) × (v ≡ next_tick w)}
          (analyze_effect provider symbol w (SameTables w) (refl, refl))
          λ verdict v (news, here).
            rw (here, news) (conclude_evaluation_effect symbol price s verdict (next_tick w))

    analyze-conclude_preview :
        (provider : Provider) (symbol : String) (price : D) (s : IndicatorState D) (w : World D)
        → Ends
            (Tells (is_positive (provider w.tick symbol)) (Untouched w))
            (Untouched w)
            ((analyze provider symbol >>= conclude_preview env symbol price s) w)
    analyze-conclude_preview provider symbol price s w =
        Ends-bind (analyze provider symbol) (conclude_preview env symbol price s) w
          {P = λ verdict v. (provider w.tick symbol ≡ some verdict) × (v ≡ next_tick w)}
          (analyze_effect provider symbol w (Untouched w) ((refl, refl), refl, refl, refl))
          λ verdict v (news, here).
            rw (here, news) (conclude_preview_effect symbol price s verdict (next_tick w))

    evaluate_layers_effect :
        (provider : Provider) (symbol : String) (price : D) (o : Option (IndicatorState D))
        (w : World D)
        → Ends
            (Tells (live_layers price o && is_positive (provider w.tick symbol)) (SameTables w))
            (SameTables w)
            (evaluate_layers env provider symbol price o w)
    unfolding evaluate_layers
    evaluate_layers_effect provider symbol price none w = record { outcome = (refl, (refl, refl)) }
    evaluate_layers_effect provider symbol price (some s) w =
        elim (Bool-cases (dec.gt price s.ema)) [
          | inr below ↦ rw below (record { outcome = (refl, (refl, refl)) })
          | inl above ↦ rw above (elim (Bool-cases (dec.lt s.rsi (dec.from_int 35))) [
            | inr strong ↦ rw strong (record { outcome = (refl, (refl, refl)) })
            | inl oversold ↦ rw oversold (analyze-conclude_evaluation provider symbol price s w)
          ])
        ]

    preview_layers_effect :
        (provider : Provider) (symbol : String) (price : D) (o : Option (IndicatorState D))
        (w : World D)
        → Ends
            (Tells (shadow_layers price o && is_positive (provider w.tick symbol)) (Untouched w))
            (Untouched w)
            (preview_layers env provider symbol price o w)
    unfolding preview_layers
    preview_layers_effect provider symbol price none w = record {
      outcome = (refl, ((refl, refl), refl, refl, refl));
    }
    preview_layers_effect provider symbol price (some s) w =
        elim (Bool-cases (dec.gt price s.ema)) [
          | inr below ↦ rw below (record { outcome = (refl, ((refl, refl), refl, refl, refl)) })
          | inl above ↦ rw above (elim (Bool-cases (dec.lt s.rsi_prev (dec.from_int 35))) [
            | inr strong ↦ rw strong (record { outcome = (refl, ((refl, refl), refl, refl, refl)) })
            | inl oversold ↦ rw oversold (elim (Bool-cases (dec.ge s.rsi (dec.from_int 35))) [
              | inr still ↦ rw still (record { outcome = (refl, ((refl, refl), refl, refl, refl)) })
              | inl crossed ↦ rw crossed (analyze-conclude_preview provider symbol price s w)
            ])
          ])
        ]

  module _ (env : Env D) (provider : Provider) (cache : IndicatorCache D) (symbol : String)
      (price : D) (w : World D) where
    -- The tests of all layers, at the world in which the call starts.
    abbrev pub live_gates : Bool
    live_gates =
        is_flat w symbol
        && (live_layers price (get cache symbol) && is_positive (provider (w.tick + 1) symbol))

    abbrev pub shadow_gates : Bool
    shadow_gates =
        is_flat w symbol
        && (shadow_layers price (get cache symbol) && is_positive (provider (w.tick + 1) symbol))

    -- `EvaluateBuySignal` that does not fail gives a signal exactly if the symbol has no open
    -- position and a cached state, the price is above its EMA, its RSI is below 35 and the news are
    -- positive. However it ends, trades and transfers stay as they are.
    pub evaluate_buy_signal-live_gates :
        Ends
          (Tells live_gates (SameTables w))
          (SameTables w)
          (evaluate_buy_signal env provider cache symbol price w)
    unfolding evaluate_buy_signal
    evaluate_buy_signal-live_gates =
        Ends-bind (has_open_position env symbol)
          (λ has_position.
            if has_position
            then pure none
            else evaluate_layers env provider symbol price (get cache symbol))
          w {P = λ b v. (b ≡ any (is_open_position w.trades symbol) w.trades) × (v ≡ next_tick w)}
          (open_position_effect env symbol w (SameTables w) (refl, refl))
          λ b v (known, here).
            rw (here, known)
              (elim (Bool-cases (any (is_open_position w.trades symbol) w.trades)) [
                | inl held ↦ rw held (record { outcome = (refl, (refl, refl)) })
                | inr flat ↦ rw flat (
                    evaluate_layers_effect env provider symbol price (get cache symbol)
                      (next_tick w))
              ])

    -- `PreviewBuySignal` that does not fail gives a signal exactly if the symbol has no open
    -- position and a cached state, the price is above its EMA, its previous RSI is below 35, its
    -- RSI is at least 35 and the news are positive. However it ends, no table and no placed order
    -- changes.
    pub preview_buy_signal-shadow_gates :
        Ends
          (Tells shadow_gates (Untouched w))
          (Untouched w)
          (preview_buy_signal env provider cache symbol price w)
    unfolding preview_buy_signal
    preview_buy_signal-shadow_gates =
        Ends-bind (has_open_position env symbol)
          (λ has_position.
            if has_position
            then pure none
            else preview_layers env provider symbol price (get cache symbol))
          w {P = λ b v. (b ≡ any (is_open_position w.trades symbol) w.trades) × (v ≡ next_tick w)}
          (open_position_effect env symbol w (Untouched w) ((refl, refl), refl, refl, refl))
          λ b v (known, here).
            rw (here, known)
              (elim (Bool-cases (any (is_open_position w.trades symbol) w.trades)) [
                | inl held ↦ rw held (record { outcome = (refl, ((refl, refl), refl, refl, refl)) })
                | inr flat ↦ rw flat (
                    preview_layers_effect env provider symbol price (get cache symbol)
                      (next_tick w))
              ])
