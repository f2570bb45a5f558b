-- ===== src/Examples/Data.antt =====
-- The data of the examples.
use outbound_api.Prelude.{true, ◌+◌, false, ltb, if◌then◌else◌, none, some, List, [], ◌∷◌}
use outbound_api.Prelude.Integers.{ℤ, pos}
use outbound_api.Model.{Side, Status, SignalMode, Signal, AccountTransfer}
use outbound_api.Repository.Store.{Env, World}
use outbound_api.Service.Trade.Sizing.{RiskParams}
use outbound_api.Service.Trade.Updates.{TradeUpdate}
use outbound_api.Indicator.Cache.{IndicatorCache}
use outbound_api.Service.Signal.{Provider}
use outbound_api.Budget.Session.{Op}

-- Nothing fails, the broker accepts every order, and identifiers are fresh.
abbrev pub quiet : Env ℤ
quiet = record {
  db_fails = λ tick. false;
  is_locked = λ tick id. false;
  place_order = λ tick. some (if ltb tick 8 then "first" else "second");
  is_kept = λ tick. false;
  new_uuid = λ tick. tick + 100;
  now = λ tick. tick;
  column = λ x. x;
}

-- The broker refuses every order.
abbrev pub refusing : Env ℤ
refusing = record quiet { place_order = λ tick. none }

abbrev pub params : RiskParams ℤ
params = record {
  risk_per_trade_pct = pos 1;
  atr_risk_multiplier = pos 2;
  take_profit_multiplier = pos 3;
  commission_fee_pct = pos 0;
  fx_fee_pct = pos 0;
}

-- 1000 dollars for two trades.
abbrev pub funding : AccountTransfer ℤ
funding = record {
  id = 7;
  kind = "deposit";
  amount_thb = pos 36000;
  amount_usd = pos 1000;
  fee_thb = pos 0;
  fee_usd = none;
  exchange_rate = pos 36;
  target_trades = 2;
  remaining_trades = some 2;
  created_at = 1;
  updated_at = 1;
}

abbrev pub buy_signal : Signal ℤ
buy_signal = record {
  id = 11;
  symbol = "AAPL";
  side = Side.buy;
  price_at_signal = pos 100;
  indicators = record { ema = pos 90; rsi = pos 30; atr = pos 5 };
  is_executed = false;
  mode = SignalMode.live;
  reasoning = none;
  created_at = 2;
}

abbrev pub start : World ℤ
start = record {
  trades = [];
  signals = buy_signal ∷ [];
  transfers = funding ∷ [];
  decisions = [];
  orders = [];
  tick = 0;
}

abbrev pub filled_update : TradeUpdate ℤ
filled_update = record {
  event = "fill";
  order_id = "first";
  filled_at = some 5;
  filled_avg_price = some (pos 101);
  filled_qty = pos 5;
}

-- Good news of every symbol.
abbrev pub good_news : Provider
good_news = λ tick symbol. some (record { positive = true; reasoning = "upbeat" })

-- An oversold symbol in an upward trend.
abbrev pub oversold : IndicatorCache ℤ
oversold = λ symbol. some (record { ema = pos 90; rsi = pos 30; rsi_prev = pos 40; atr = pos 5 })

-- A symbol that has just stopped to be oversold.
abbrev pub recovering : IndicatorCache ℤ
recovering = λ symbol. some (record { ema = pos 90; rsi = pos 36; rsi_prev = pos 30; atr = pos 5 })

-- A buy, its fill, and bars at which the price reaches the take-profit; then
-- a bar of another symbol, which is bought.
abbrev pub day : List (Op ℤ)
day =
    Op.buy buy_signal (some funding)
    ∷ Op.update filled_update Status.filled
    ∷ Op.exits "AAPL" (pos 102)
    ∷ Op.exits "AAPL" (pos 130)
    ∷ Op.bar good_news oversold (record { symbol = "MSFT"; price = pos 100; bar_time = 9 })
    ∷ []
