-- ===== src/Model.antt =====
-- internal/model: the rows of the database and the values that the layers share. An identifier
-- (uuid.UUID) and a point of time are numbers, which the program only compares, stores and orders.
-- `Metadata` keeps the decimals whose text the audit blob holds.
use outbound_api.Prelude.{ℕ, Bool, Option, String, List}

pub data Side : Type 0 where
  buy sell : Side

pub data Status : Type 0 where
  pending open_order filled cancelled rejected : Status

pub data SignalMode : Type 0 where
  live shadow : SignalMode

abbrev pub is_sell : Side → Bool
is_sell Side.buy = Bool.false
is_sell Side.sell = Bool.true

abbrev pub is_buy : Side → Bool
is_buy Side.buy = Bool.true
is_buy Side.sell = Bool.false

-- `status IN ('pending', 'open', 'filled')`
abbrev pub is_active : Status → Bool
is_active Status.pending = Bool.true
is_active Status.open_order = Bool.true
is_active Status.filled = Bool.true
is_active _ = Bool.false

-- `status IN ('open', 'filled')`
abbrev pub is_held : Status → Bool
is_held Status.open_order = Bool.true
is_held Status.filled = Bool.true
is_held _ = Bool.false

-- `Filled, Cancelled, and Rejected are terminal`
abbrev pub is_terminal : Status → Bool
is_terminal Status.pending = Bool.false
is_terminal Status.open_order = Bool.false
is_terminal _ = Bool.true

-- `StatusRejected || StatusCancelled`
abbrev pub is_void : Status → Bool
is_void Status.cancelled = Bool.true
is_void Status.rejected = Bool.true
is_void _ = Bool.false

pub record Trade (D : Type 0) : Type 0 where
  pub id : ℕ
  pub parent_id : Option ℕ
  pub signal_id : Option ℕ
  pub account_transfer_id : Option ℕ
  pub alpaca_order_id : Option String
  pub symbol : String
  pub side : Side
  pub quantity : D
  pub price_per_unit : Option D
  pub avg_fill_price : Option D
  pub commission_fee : Option D
  pub fx_fee_amortized : Option D
  pub stop_loss : Option D
  pub take_profit : Option D
  pub peak_price : Option D
  pub entry_atr : Option D
  pub status : Status
  pub metadata : List (String × D)
  pub filled_at : Option ℕ
  pub created_at : ℕ

pub record SignalIndicators (D : Type 0) : Type 0 where
  pub ema : D
  pub rsi : D
  pub atr : D

pub record Signal (D : Type 0) : Type 0 where
  pub id : ℕ
  pub symbol : String
  pub side : Side
  pub price_at_signal : D
  pub indicators : SignalIndicators D
  pub is_executed : Bool
  pub mode : SignalMode
  pub reasoning : Option String
  pub created_at : ℕ

pub record AccountTransfer (D : Type 0) : Type 0 where
  pub id : ℕ
  pub kind : String
  pub amount_thb : D
  pub amount_usd : D
  pub fee_thb : D
  pub fee_usd : Option D
  pub exchange_rate : D
  pub target_trades : ℕ
  pub remaining_trades : Option ℕ
  pub created_at : ℕ
  pub updated_at : ℕ

pub record ShadowExitDecision (D : Type 0) : Type 0 where
  pub id : ℕ
  pub trade_id : ℕ
  pub bar_time : ℕ
  pub current_price : D
  pub peak_price : D
  pub current_stop : Option D
  pub action : String
  pub reasoning : Option String
  pub created_at : ℕ
