-- ===== src/Examples/Settings.antt =====
-- An environment of the bot, with numbers in hundredths of a percent.
use outbound_api.Prelude.{
  ℕ, ◌≡◌, refl, true, ◌||◌, Option, none, some, String, str_eq, if◌then◌else◌,
}
use outbound_api.Prelude.Fallible.{success, failure_of}
use outbound_api.Prelude.Integers.{ℤ, pos}
use outbound_api.Config.{
  Config, required, load, validate, decimal_setting, or_default, min_articles_setting,
  ema_period_setting, not_negative_or, positive_or,
}
use outbound_api.Config.Loading.{first_failure, checks, load-first_failure}
use outbound_api.Config.Promises.{IsUsable, load-IsUsable}

-- The numbers of the defaults, and of no other text.
abbrev pub parse_some : String → Option ℕ
parse_some t =
    if str_eq t "0.0005"
    then some 5
    else if str_eq t "0.0001"
    then some 1
    else if str_eq t "0.01"
    then some 100
    else if str_eq t "1.0"
    then some 10000
    else if str_eq t "1.5"
    then some 15000
    else if str_eq t "2.0"
    then some 20000
    else if str_eq t "3.0"
    then some 30000
    else none

abbrev pub scan_some : String → Option ℤ
scan_some t = if str_eq t "0" then some (pos 0) else none

-- Keys and addresses, a regime period of 0, and no minimum of articles that reads as a number.
abbrev pub usual : String → String
usual name =
    if str_eq name "REGIME_EMA_PERIOD"
    then "0"
    else if str_eq name "SENTIMENT_MIN_ARTICLES"
    then "many"
    else if str_eq name "ALPACA_API_KEY"
        || str_eq name "ALPACA_API_SECRET"
        || str_eq name "BOT_API_KEY"
        || str_eq name "SENTIMENT_API_KEY"
    then "key"
    else if str_eq name "ALPACA_BASE_URL"
    then "https://paper-api.alpaca.markets"
    else if str_eq name "DATABASE_URL"
    then "postgres://localhost/bot"
    else ""

-- The same without the key of the control routes.
abbrev open_bot : String → String
open_bot name = if str_eq name "BOT_API_KEY" then "" else usual name

abbrev usual_config : Config ℕ
usual_config = record {
  alpaca_api_key = "key";
  alpaca_api_secret = "key";
  alpaca_base_url = "https://paper-api.alpaca.markets";
  database_url = "postgres://localhost/bot";
  port = "8080";
  bot_auto_start = true;
  bot_api_key = "key";
  sentiment_api_base_url = "https://api.deepseek.com";
  sentiment_api_key = "key";
  sentiment_model = "deepseek-v4-flash";
  sentiment_min_articles = 3;
  regime_symbol = "SPY";
  regime_ema_period = 50;
  risk_per_trade_pct = 100;
  atr_risk_multiplier = 20000;
  take_profit_multiplier = 30000;
  commission_fee_pct = 5;
  fx_fee_pct = 1;
  break_even_atr_trigger = 10000;
  trail_atr_trigger = 15000;
  trail_atr_distance = 20000;
}

loads_usual : load parse_some scan_some usual ≡ success usual_config
unfolding load validate decimal_setting or_default min_articles_setting ema_period_setting
    not_negative_or positive_or
loads_usual = refl

load-first_failure_example :
    failure_of (load parse_some scan_some open_bot) ≡ first_failure (checks parse_some open_bot)
load-first_failure_example = load-first_failure parse_some open_bot scan_some

refuses_open_bot : failure_of (load parse_some scan_some open_bot) ≡ some (required "BOT_API_KEY")
unfolding load validate decimal_setting or_default min_articles_setting ema_period_setting
    not_negative_or positive_or
refuses_open_bot = refl

load-IsUsable_example : IsUsable parse_some usual usual_config
load-IsUsable_example = load-IsUsable parse_some usual scan_some usual_config loads_usual
