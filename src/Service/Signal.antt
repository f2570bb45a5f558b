-- ===== src/Service/Signal.antt =====
-- internal/service/signal_service.go. The sentiment provider is an argument: what it answers at the
-- number of the call, `none` for an error. The text of `Reasoning` is the provider's; the numbers
-- that the program formats in front of it are those of the signal's other fields.
pub mod Gates
use outbound_api.Prelude.{
  ℕ, ◌+◌, Bool, true, false, not, ◌||◌, Option, none, some, String, List, if◌then◌else◌,
}
use outbound_api.Decimal.{Decimal}
use outbound_api.Model.{Side, SignalMode, Signal, SignalIndicators}
use outbound_api.Repository.Store.{
  Env, World, M, ok, err, news_failed, ◌>>=◌, ◌>>◌, pure, next_tick, new_uuid, time_now,
}
use outbound_api.Repository.Trades.{has_open_position}
use outbound_api.Repository.Signals.{create_signal, get_all_signals}
use outbound_api.Indicator.Cache.{IndicatorState, IndicatorCache, get}

-- sentiment.Result
pub record Verdict : Type 0 where
  pub positive : Bool
  pub reasoning : String

-- sentiment.Provider
abbrev pub Provider : Type 0
Provider = ℕ → String → Option Verdict

module _ {D : Type 0} where
  unfoldable pub analyze : Provider → String → M D Verdict
  analyze provider symbol w = elim (provider w.tick symbol) [
    | none ↦ (err news_failed, next_tick w)
    | some verdict ↦ (ok verdict, next_tick w)
  ]

module _ {D : Type 0} (env : Env D) where
  unfoldable pub get_signals : M D (List (Signal D))
  get_signals = get_all_signals env

module _ {D : Type 0} ⦃dec : Decimal D⦄ (env : Env D) where
  -- `CreateSellSignal`
  unfoldable pub create_sell_signal : String → D → String → M D (Signal D)
  create_sell_signal symbol price reasoning = do
    id ← new_uuid env
    now ← time_now env
    let signal : Signal D = record {
      id = id;
      symbol = symbol;
      side = Side.sell;
      price_at_signal = price;
      indicators = record { ema = dec.naught; rsi = dec.naught; atr = dec.naught };
      is_executed = false;
      mode = SignalMode.live;
      reasoning = some reasoning;
      created_at = now;
    }
    create_signal env signal
    pure signal

  -- A buy signal at a price with the cached indicators.
  unfoldable pub buy_signal_of :
      SignalMode → String → D → IndicatorState D → String → M D (Signal D)
  buy_signal_of mode symbol price state reasoning = do
    id ← new_uuid env
    now ← time_now env
    pure (record {
      id = id;
      symbol = symbol;
      side = Side.buy;
      price_at_signal = price;
      indicators = record { ema = state.ema; rsi = state.rsi; atr = state.atr };
      is_executed = false;
      mode = mode;
      reasoning = some reasoning;
      created_at = now;
    })

  unfoldable pub keep_signal : Signal D → M D (Option (Signal D))
  keep_signal signal = create_signal env signal >> pure (some signal)

  -- The last layer and the signal: stored when it is live.
  unfoldable pub conclude_evaluation :
      String → D → IndicatorState D → Verdict → M D (Option (Signal D))
  conclude_evaluation symbol price state verdict =
      if verdict.positive
      then (do
        signal ← buy_signal_of SignalMode.live symbol price state verdict.reasoning
        keep_signal signal)
      else pure none

  unfoldable pub conclude_preview :
      String → D → IndicatorState D → Verdict → M D (Option (Signal D))
  conclude_preview symbol price state verdict =
      if verdict.positive
      then (do
        signal ← buy_signal_of SignalMode.shadow symbol price state verdict.reasoning
        pure (some signal))
      else pure none

  -- Layers 1 to 3 on the cached state.
  unfoldable pub evaluate_layers :
      Provider → String → D → Option (IndicatorState D) → M D (Option (Signal D))
  evaluate_layers provider symbol price none = pure none
  evaluate_layers provider symbol price (some state) =
      if not (dec.gt price state.ema)
      then pure none
      else if not (dec.lt state.rsi (dec.from_int 35))
      then pure none
      else analyze provider symbol >>= conclude_evaluation symbol price state

  unfoldable pub preview_layers :
      Provider → String → D → Option (IndicatorState D) → M D (Option (Signal D))
  preview_layers provider symbol price none = pure none
  preview_layers provider symbol price (some state) =
      if not (dec.gt price state.ema)
      then pure none
      else if not (dec.lt state.rsi_prev (dec.from_int 35))
          || not (dec.ge state.rsi (dec.from_int 35))
      then pure none
      else analyze provider symbol >>= conclude_preview symbol price state

  unfoldable pub evaluate_buy_signal :
      Provider → IndicatorCache D → String → D → M D (Option (Signal D))
  evaluate_buy_signal provider cache symbol price = do
    has_position ← has_open_position env symbol
    (if has_position then pure none else evaluate_layers provider symbol price (get cache symbol))

  unfoldable pub preview_buy_signal :
      Provider → IndicatorCache D → String → D → M D (Option (Signal D))
  preview_buy_signal provider cache symbol price = do
    has_position ← has_open_position env symbol
    (if has_position then pure none else preview_layers provider symbol price (get cache symbol))
