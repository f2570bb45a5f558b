-- ===== src/Config.antt =====
-- internal/config/config.go. The environment is a function from names to texts, "" for a variable
-- that is not set, as os.Getenv reads it. `parse_decimal` is decimal.NewFromString and `scan_int` is
-- fmt.Sscanf with "%d"; `none` is their error.
pub mod Loading
pub mod Promises
use outbound_api.Prelude.{
  ℕ, zero, suc, Bool, true, false, not, Option, none, some, String, str_eq, if◌then◌else◌,
}
use outbound_api.Prelude.Fallible.{Fallible, success, failure, ◌>>=◌, or_fail}
use outbound_api.Prelude.Integers.{ℤ, pos, negsuc}

pub record Config (D : Type 0) : Type 0 where
  pub alpaca_api_key : String
  pub alpaca_api_secret : String
  pub alpaca_base_url : String
  pub database_url : String
  pub port : String
  pub bot_auto_start : Bool
  pub bot_api_key : String
  pub sentiment_api_base_url : String
  pub sentiment_api_key : String
  pub sentiment_model : String
  pub sentiment_min_articles : ℕ
  pub regime_symbol : String
  pub regime_ema_period : ℕ
  pub risk_per_trade_pct : D
  pub atr_risk_multiplier : D
  pub take_profit_multiplier : D
  pub commission_fee_pct : D
  pub fx_fee_pct : D
  pub break_even_atr_trigger : D
  pub trail_atr_trigger : D
  pub trail_atr_distance : D

-- The errors, by the variable that they name.
pub data Failure : Type 0 where
  invalid required : String → Failure

-- `raw := os.Getenv(…); if raw == "" { raw = fallback }`
unfoldable pub or_default : String → String → String
or_default raw fallback = if str_eq raw "" then fallback else raw

-- `err == nil && n >= 0`
unfoldable pub not_negative_or : ℕ → Option ℤ → ℕ
not_negative_or fallback none = fallback
not_negative_or fallback (some (pos n)) = n
not_negative_or fallback (some (negsuc n)) = fallback

-- `err == nil && n > 0`
unfoldable pub positive_or : ℕ → Option ℤ → ℕ
positive_or fallback none = fallback
positive_or fallback (some (pos zero)) = fallback
positive_or fallback (some (pos (suc n))) = suc n
positive_or fallback (some (negsuc n)) = fallback

module _ {D : Type 0} where
  unfoldable pub validate : Config D → Fallible Failure (Config D)
  validate c =
      if str_eq c.alpaca_api_key ""
      then failure (required "ALPACA_API_KEY")
      else if str_eq c.alpaca_api_secret ""
      then failure (required "ALPACA_API_SECRET")
      else if str_eq c.alpaca_base_url ""
      then failure (required "ALPACA_BASE_URL")
      else if str_eq c.database_url ""
      then failure (required "DATABASE_URL")
      else if str_eq c.bot_api_key ""
      then failure (required "BOT_API_KEY")
      else if str_eq c.sentiment_api_key ""
      then failure (required "SENTIMENT_API_KEY")
      else success c

module _ {D : Type 0} (parse_decimal : String → Option D) (getenv : String → String) where
  -- A decimal setting and its default.
  unfoldable pub decimal_setting : String → String → Fallible Failure D
  decimal_setting name fallback =
      or_fail (parse_decimal (or_default (getenv name) fallback)) (invalid name)

module _ (scan_int : String → Option ℤ) (getenv : String → String) where
  unfoldable pub min_articles_setting : ℕ
  min_articles_setting =
      let raw = getenv "SENTIMENT_MIN_ARTICLES" in
      if str_eq raw "" then 3 else not_negative_or 3 (scan_int raw)

  unfoldable pub ema_period_setting : ℕ
  ema_period_setting =
      let raw = getenv "REGIME_EMA_PERIOD" in
      if str_eq raw "" then 50 else positive_or 50 (scan_int raw)

module _ {D : Type 0} (parse_decimal : String → Option D) (scan_int : String → Option ℤ)
    (getenv : String → String) where
  abbrev decimal : String → String → Fallible Failure D
  decimal = decimal_setting parse_decimal getenv

  unfoldable pub load : Fallible Failure (Config D)
  load = do
    risk_per_trade_pct ← decimal "RISK_PER_TRADE_PCT" "0.01"
    atr_risk_multiplier ← decimal "ATR_RISK_MULTIPLIER" "2.0"
    take_profit_multiplier ← decimal "TAKE_PROFIT_MULTIPLIER" "3.0"
    commission_fee_pct ← decimal "COMMISSION_FEE_PCT" "0.0005"
    fx_fee_pct ← decimal "FX_FEE_PCT" "0.0001"
    break_even_atr_trigger ← decimal "BREAK_EVEN_ATR_TRIGGER" "1.0"
    trail_atr_trigger ← decimal "TRAIL_ATR_TRIGGER" "1.5"
    trail_atr_distance ← decimal "TRAIL_ATR_DISTANCE" "2.0"
    validate (record {
      alpaca_api_key = getenv "ALPACA_API_KEY";
      alpaca_api_secret = getenv "ALPACA_API_SECRET";
      alpaca_base_url = getenv "ALPACA_BASE_URL";
      database_url = getenv "DATABASE_URL";
      port = or_default (getenv "PORT") "8080";
      bot_auto_start = not (str_eq (getenv "BOT_AUTOSTART") "false");
      bot_api_key = getenv "BOT_API_KEY";
      sentiment_api_base_url =
          or_default (getenv "SENTIMENT_API_BASE_URL") "https://api.deepseek.com";
      sentiment_api_key = getenv "SENTIMENT_API_KEY";
      sentiment_model = or_default (getenv "SENTIMENT_MODEL") "deepseek-v4-flash";
      sentiment_min_articles = min_articles_setting scan_int getenv;
      regime_symbol = or_default (getenv "REGIME_SYMBOL") "SPY";
      regime_ema_period = ema_period_setting scan_int getenv;
      risk_per_trade_pct = risk_per_trade_pct;
      atr_risk_multiplier = atr_risk_multiplier;
      take_profit_multiplier = take_profit_multiplier;
      commission_fee_pct = commission_fee_pct;
      fx_fee_pct = fx_fee_pct;
      break_even_atr_trigger = break_even_atr_trigger;
      trail_atr_trigger = trail_atr_trigger;
      trail_atr_distance = trail_atr_distance;
    })
