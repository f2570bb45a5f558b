-- ===== src/Config/Loading.antt =====
-- Which environments `Load` accepts, the error that it gives for the others, and what a loaded
-- configuration promises to the rest of the program.
use outbound_api.Prelude.{
  ◌≡◌, refl, Bool, true, false, Option, none, some, String, str_eq, List, [], ◌∷◌, ◌++◌, arith,
  if◌then◌else◌, map,
}
use outbound_api.Prelude.Integers.{ℤ}
use outbound_api.Prelude.Fallible.{Fallible, ◌>>=◌, or_fail, failure_of}
use outbound_api.Config.{
  Config, Failure, invalid, required, or_default, validate, decimal_setting, load,
}

-- The first check that fails.
abbrev pub first_failure : List (Bool × Failure) → Option Failure
first_failure [] = none
first_failure ((fails, e) ∷ rest) = if fails then some e else first_failure rest

abbrev pub decimal_settings : List (String × String)
decimal_settings =
    ("RISK_PER_TRADE_PCT", "0.01")
    ∷ ("ATR_RISK_MULTIPLIER", "2.0")
    ∷ ("TAKE_PROFIT_MULTIPLIER", "3.0")
    ∷ ("COMMISSION_FEE_PCT", "0.0005")
    ∷ ("FX_FEE_PCT", "0.0001")
    ∷ ("BREAK_EVEN_ATR_TRIGGER", "1.0")
    ∷ ("TRAIL_ATR_TRIGGER", "1.5")
    ∷ ("TRAIL_ATR_DISTANCE", "2.0")
    ∷ []

abbrev pub required_settings : List String
required_settings =
    "ALPACA_API_KEY" ∷ "ALPACA_API_SECRET" ∷ "ALPACA_BASE_URL" ∷ "DATABASE_URL" ∷ "BOT_API_KEY"
    ∷ "SENTIMENT_API_KEY" ∷ []

abbrev pub is_none : {A : Type 0} → Option A → Bool
is_none none = true
is_none (some a) = false

module _ {D : Type 0} (parse_decimal : String → Option D) (getenv : String → String) where
  abbrev pub fails_to_parse : String × String → Bool
  fails_to_parse (name, fallback) = is_none (parse_decimal (or_default (getenv name) fallback))

  abbrev pub is_missing : String → Bool
  is_missing name = str_eq (getenv name) ""

  -- The decimal settings that do not parse, then the required settings that are not set.
  abbrev pub checks : List (Bool × Failure)
  checks =
      map (λ setting. (fails_to_parse setting, invalid setting.0)) decimal_settings
      ++ map (λ name. (is_missing name, required name)) required_settings

  -- One decimal setting in front of the rest, whose failure does not depend on its value.
  decimal_setting-failure_of :
      (name fallback : String) {A : Type 0} (f : D → Fallible Failure A) (rest : Option Failure)
      → ((x : D) → failure_of (f x) ≡ rest)
      → failure_of (decimal_setting parse_decimal getenv name fallback >>= f)
        ≡ (if fails_to_parse (name, fallback) then some (invalid name) else rest)
  unfolding decimal_setting
  decimal_setting-failure_of name fallback f rest h =
      by_parse (parse_decimal (or_default (getenv name) fallback))
    where
      by_parse :
          (o : Option D)
          → failure_of (or_fail o (invalid name) >>= f)
            ≡ (if is_none o then some (invalid name) else rest)
      by_parse none = refl
      by_parse (some x) = h x

  validate-failure_of :
      (c : Config D)
      → failure_of (validate c)
        ≡ first_failure (
            (str_eq c.alpaca_api_key "", required "ALPACA_API_KEY")
            ∷ (str_eq c.alpaca_api_secret "", required "ALPACA_API_SECRET")
            ∷ (str_eq c.alpaca_base_url "", required "ALPACA_BASE_URL")
            ∷ (str_eq c.database_url "", required "DATABASE_URL")
            ∷ (str_eq c.bot_api_key "", required "BOT_API_KEY")
            ∷ (str_eq c.sentiment_api_key "", required "SENTIMENT_API_KEY")
            ∷ [])
  unfolding validate
  validate-failure_of c = ground arith

  -- Loading an environment fails with the first of the checks that fails, first the decimal settings
  -- in the order of the source, each read from the environment or its default, and then the six
  -- required settings; it succeeds if none fails. No other setting makes it fail, neither integer
  -- either.
  pub load-first_failure :
      (scan_int : String → Option ℤ)
      → failure_of (load parse_decimal scan_int getenv) ≡ first_failure checks
  unfolding load
  load-first_failure scan_int = decimal_setting-failure_of "RISK_PER_TRADE_PCT" "0.01" _ _ λ a.
      decimal_setting-failure_of "ATR_RISK_MULTIPLIER" "2.0" _ _ λ b.
        decimal_setting-failure_of "TAKE_PROFIT_MULTIPLIER" "3.0" _ _ λ c.
          decimal_setting-failure_of "COMMISSION_FEE_PCT" "0.0005" _ _ λ d.
            decimal_setting-failure_of "FX_FEE_PCT" "0.0001" _ _ λ e.
              decimal_setting-failure_of "BREAK_EVEN_ATR_TRIGGER" "1.0" _ _ λ f.
                decimal_setting-failure_of "TRAIL_ATR_TRIGGER" "1.5" _ _ λ g.
                  decimal_setting-failure_of "TRAIL_ATR_DISTANCE" "2.0" _ _
                    λ h. validate-failure_of _
