-- ===== src/Examples/Entries.antt =====
-- Buy signals, position sizes, the funding transfer that is used, exits, and replayed events.
use outbound_api.Prelude.{
  arith, ltb, if◌then◌else◌, ◌+◌, ◌*◌, length, ◌≡◌, ◌⊎◌, ◌↔◌, inl, refl, true, none, some, List, [],
  ◌∷◌,
}
use outbound_api.Prelude.Integers.{ℤ, pos, ◌*ℤ◌, ◌/ℤ◌}
use outbound_api.Decimal.{div, ◌≼◌}
use outbound_api.Decimal.Whole.{whole_decimal, whole-IsOrdered}
use outbound_api.Model.{Trade, Side, Status, AccountTransfer}
use outbound_api.Repository.Store.{Env, World, within_transaction}
use outbound_api.Repository.Outcome.{Ends}
use outbound_api.Repository.Effects.{SameTables, Untouched}
use outbound_api.Repository.Transfers.{oldest_with_slot}
use outbound_api.Repository.Transfers.Oldest.{IsOldest, oldest_with_slot-IsOldest}
use outbound_api.Repository.Store.{ok}
use outbound_api.Repository.Trades.{is_open_buy, has_sell_child}
use outbound_api.Service.Trade.Exits.Ready.{IsReliable, IsFresh}
use outbound_api.Service.Trade.Exits.Complete.{all_placed, evaluate_and_execute_exits-all_placed}
use outbound_api.Service.Trade.Exits.{
  ExitPair, place_exit, exit_transaction, evaluate_and_execute_exits,
}
use outbound_api.Service.Trade.Exits.Untracked.{place_exit_untracked}
use outbound_api.Service.Trade.Sell.{sell_request}
use outbound_api.Repository.Alike.{trade_id}
use outbound_api.Prelude.Table.{lookup}
use outbound_api.Service.Trade.Exits.Due.{due, open_buys}
use outbound_api.Service.Trade.Exits.Answers.{answered, evaluate_and_execute_exits-answered}
use outbound_api.Service.Signal.{evaluate_buy_signal, preview_buy_signal}
use outbound_api.Sentiment.Cached.{Call, cached_analyze, entries_after}
use outbound_api.Sentiment.Cached.Recent.{Explained, cached_analyze-Explained}
use outbound_api.Service.Signal.Gates.{
  Tells, live_gates, shadow_gates, evaluate_buy_signal-live_gates, preview_buy_signal-shadow_gates,
}
use outbound_api.Service.Trade.Sizing.{size_position, slot_quantity}
use outbound_api.Service.Trade.Sizing.Cap.{size_position_capped, size_position-none}
use outbound_api.Service.Trade.Updates.{TradeUpdate}
use outbound_api.Service.Trade.Updates.Replay.{replay, replay-Untouched}
use outbound_api.Examples.Data.{
  quiet, params, funding, buy_signal, start, filled_update, good_news, oversold, recovering,
}

evaluate_buy_signal-live_gates_example :
    Ends
      (Tells (live_gates quiet good_news oversold "AAPL" (pos 100) start) (SameTables start))
      (SameTables start)
      (evaluate_buy_signal quiet good_news oversold "AAPL" (pos 100) start)
evaluate_buy_signal-live_gates_example =
    evaluate_buy_signal-live_gates quiet good_news oversold "AAPL" (pos 100) start

preview_buy_signal-shadow_gates_example :
    Ends
      (Tells (shadow_gates quiet good_news recovering "AAPL" (pos 100) start) (Untouched start))
      (Untouched start)
      (preview_buy_signal quiet good_news recovering "AAPL" (pos 100) start)
preview_buy_signal-shadow_gates_example =
    preview_buy_signal-shadow_gates quiet good_news recovering "AAPL" (pos 100) start

size_position_capped_example :
    (share : ℤ) × (cap : ℤ) × (div (pos 1000) (pos 2) ≡ some share)
    × (div share (pos 100) ≡ some cap)
    × pos 5 ≼ cap
unfolding size_position slot_quantity ◌*ℤ◌ ◌/ℤ◌
size_position_capped_example =
    size_position_capped whole-IsOrdered params buy_signal funding (pos 5) refl

size_position-none_example :
    (size_position params buy_signal funding ≡ none)
    ↔ (whole_decimal.is_zero (pos 2) ≡ true) ⊎ (whole_decimal.is_zero (pos 100) ≡ true)
size_position-none_example = size_position-none whole-IsOrdered params buy_signal funding

abbrev fundings : List (AccountTransfer ℤ)
fundings = funding ∷ record funding { id = 8; created_at = 0 } ∷ []

oldest_with_slot-IsOldest_example : IsOldest fundings (oldest_with_slot fundings)
oldest_with_slot-IsOldest_example = oldest_with_slot-IsOldest fundings

-- A buy that the broker has filled.
abbrev pub filled_buy : Trade ℤ
filled_buy = record {
  id = 1;
  parent_id = none;
  signal_id = some 11;
  account_transfer_id = some 7;
  alpaca_order_id = some "first";
  symbol = "AAPL";
  side = Side.buy;
  quantity = pos 5;
  price_per_unit = some (pos 100);
  avg_fill_price = some (pos 101);
  commission_fee = none;
  fx_fee_amortized = none;
  stop_loss = some (pos 90);
  take_profit = some (pos 115);
  peak_price = some (pos 100);
  entry_atr = some (pos 5);
  status = Status.filled;
  metadata = [];
  filled_at = some 5;
  created_at = 2;
}

abbrev pub after_fill : World ℤ
after_fill = record start { trades = filled_buy ∷ [] }

-- Two late events of its order.
abbrev late_events : List (TradeUpdate ℤ × Status)
late_events = (filled_update, Status.cancelled) ∷ (filled_update, Status.filled) ∷ []

replay-Untouched_example : Untouched after_fill (replay quiet params late_events after_fill)
replay-Untouched_example =
    replay-Untouched quiet params "first" late_events after_fill filled_buy refl (inl refl)
      (refl, (refl, tt))

-- The price is above the take-profit.
evaluate_and_execute_exits-answered_example :
    let first =
      (within_transaction quiet (exit_transaction quiet "AAPL" (pos 130)) after_fill).1.tick in
    let rs = due (pos 130) (open_buys quiet "AAPL" after_fill) in
    Ends
      (λ _ v.
        (v.orders ≡ answered quiet first rs after_fill.orders) × (v.tick ≡ first + 3 * length rs))
      (λ v.
        (v.orders ≡ after_fill.orders)
        × (v.trades ≡ after_fill.trades)
        × (v.transfers ≡ after_fill.transfers))
      (evaluate_and_execute_exits quiet "AAPL" (pos 130) after_fill)
evaluate_and_execute_exits-answered_example =
    evaluate_and_execute_exits-answered quiet "AAPL" (pos 130) after_fill

-- The broker takes every order, and its answers are lost.
abbrev losing : Env ℤ
losing = record quiet { place_order = λ tick. none; is_kept = λ tick. true }

abbrev sell_of_filled : Trade ℤ
sell_of_filled = record filled_buy { id = 50; parent_id = some 1; side = Side.sell }

abbrev exit_of_filled : ExitPair ℤ
exit_of_filled = record { signal = buy_signal; sell_trade = sell_of_filled }

abbrev with_sell : World ℤ
with_sell = record after_fill { trades = filled_buy ∷ sell_of_filled ∷ [] }

place_exit_untracked_example :
    let v = (place_exit losing exit_of_filled with_sell).1 in
    (v.orders ≡ sell_request buy_signal sell_of_filled ∷ []) × (lookup trade_id 50 v.trades ≡ none)
place_exit_untracked_example =
    place_exit_untracked losing exit_of_filled with_sell refl refl refl refl

quiet-IsReliable : IsReliable quiet
quiet-IsReliable = record { answers = λ i. refl; distinct = λ i j same. omega arith }

after_fill-IsFresh : IsFresh quiet after_fill
after_fill-IsFresh = record { trades = λ j later. ground arith; signals = λ j later. ground arith }

evaluate_and_execute_exits-all_placed_example :
    let (result, v) = evaluate_and_execute_exits quiet "AAPL" (pos 130) after_fill in
    (result ≡ ok tt)
    × (v.orders ≡ all_placed (due (pos 130) (open_buys quiet "AAPL" after_fill)) after_fill.orders)
unfolding is_open_buy has_sell_child
evaluate_and_execute_exits-all_placed_example =
    evaluate_and_execute_exits-all_placed quiet "AAPL" after_fill (pos 130) quiet-IsReliable
      (λ i. (if ltb i 8 then "first" else "second", refl)) after_fill-IsFresh (refl, tt) (refl, tt)

-- The second call comes while the first answer is fresh; the inner provider would fail.
abbrev first_call : Call
first_call = record {
  symbol = "AAPL";
  before = 10;
  after = 11;
  inner = some (record { positive = true; reasoning = "upbeat" });
}

abbrev second_call : Call
second_call = record first_call { before = 15; after = 16; inner = none }

cached_analyze-Explained_example :
    Explained 10 second_call
      (first_call ∷ [])
      (cached_analyze 10 second_call (entries_after 10 (first_call ∷ []))).0
cached_analyze-Explained_example = cached_analyze-Explained 10 second_call (first_call ∷ [])
