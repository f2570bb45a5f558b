-- ===== src/Config/Promises.antt =====
-- What a loaded configuration promises to the rest of the program.
use text.Mathlib.TextEquality.{eq_iff}
use mathlib.Core.Bool.{false≢true}
use outbound_api.Prelude.{
  ℕ, zero, suc, ◌<◌, ◌≡◌, ◌≢◌, refl, sym, ◌∙◌, ◌⊎◌, false, not, Bool-cases, inl, inr, Option, none,
  some, String, str_eq, arith, if◌then◌else◌,
}
use outbound_api.Prelude.Integers.{ℤ, pos, negsuc}
use outbound_api.Prelude.Fallible.{
  Fallible, success, failure, ◌>>=◌, OnSuccess, OnSuccess-success, OnSuccess-or_fail,
}
use outbound_api.Config.{
  Config, Failure, or_default, positive_or, validate, decimal_setting, ema_period_setting, load,
}

set_of_test : (t : String) → str_eq t "" ≡ false → t ≢ ""
set_of_test t h e = absurd (false≢true (sym h ∙ (eq_iff t "").1 e))

-- A test of `validate` in front of the rest.
test-OnSuccess :
    {A : Type 0} (P : A → Type 0) (t : String) (e : Failure) (m : Fallible Failure A)
    → (t ≢ "" → OnSuccess P m)
    → OnSuccess P (if str_eq t "" then failure e else m)
test-OnSuccess P t e m h = elim (Bool-cases (str_eq t "")) [
  | inl empty ↦ rw empty tt
  | inr set ↦ rw set (h (set_of_test t set))
]

or_default-ne : (t d : String) → d ≢ "" → or_default t d ≢ ""
unfolding or_default
or_default-ne t d h = elim (Bool-cases (str_eq t "")) [
  | inl e ↦ rw e h
  | inr e ↦ rw e (set_of_test t e)
]

positive_or-pos : (d : ℕ) (o : Option ℤ) → 0 < d → 0 < positive_or d o
unfolding positive_or
positive_or-pos d none h = h
positive_or-pos d (some (pos zero)) h = h
positive_or-pos d (some (pos (suc n))) h = omega arith
positive_or-pos d (some (negsuc n)) h = h

ema_period_setting-pos :
    (scan_int : String → Option ℤ) (getenv : String → String)
    → 0 < ema_period_setting scan_int getenv
unfolding ema_period_setting
ema_period_setting-pos scan_int getenv =
    elim (Bool-cases (str_eq (getenv "REGIME_EMA_PERIOD") "")) [
      | inl e ↦ rw e (omega arith)
      | inr e ↦ rw e (positive_or-pos 50 (scan_int (getenv "REGIME_EMA_PERIOD")) (omega arith))
    ]

-- A number is what a text parses to, or what the default parses to where the text is empty.
abbrev pub ParsedFrom : {D : Type 0} → (String → Option D) → (raw fallback : String) → D → Type 0
ParsedFrom parse_decimal raw fallback x =
    (raw ≡ "") × (parse_decimal fallback ≡ some x) ⊎ (raw ≢ "") × (parse_decimal raw ≡ some x)

or_default-ParsedFrom :
    {D : Type 0} (parse_decimal : String → Option D) (raw fallback : String) (x : D)
    → parse_decimal (or_default raw fallback) ≡ some x
    → ParsedFrom parse_decimal raw fallback x
unfolding or_default
or_default-ParsedFrom parse_decimal raw fallback x h = elim (Bool-cases (str_eq raw "")) [
  | inl empty ↦ inl ((eq_iff raw "").0 empty, rw empty at h)
  | inr set ↦ inr (set_of_test raw set, rw set at h)
]

-- The texts that the clients of the broker, the database, the sentiment service and the control
-- routes need are not empty, the server has a port and a symbol of the regime, the period of its
-- average is positive, the bot starts by itself unless BOT_AUTOSTART says false, and each number is
-- what its variable parses to, or its default where the variable is empty.
pub record IsUsable {D : Type 0} (parse_decimal : String → Option D) (getenv : String → String)
    (c : Config D) : Type 0 where
  pub broker_key : c.alpaca_api_key ≢ ""
  pub broker_secret : c.alpaca_api_secret ≢ ""
  pub broker_url : c.alpaca_base_url ≢ ""
  pub database : c.database_url ≢ ""
  pub control_key : c.bot_api_key ≢ ""
  pub sentiment_key : c.sentiment_api_key ≢ ""
  pub server_port : c.port ≢ ""
  pub index : c.regime_symbol ≢ ""
  pub period : 0 < c.regime_ema_period
  pub automatic : c.bot_auto_start ≡ not (str_eq (getenv "BOT_AUTOSTART") "false")
  pub risk : ParsedFrom parse_decimal (getenv "RISK_PER_TRADE_PCT") "0.01" c.risk_per_trade_pct
  pub stop_multiple :
      ParsedFrom parse_decimal (getenv "ATR_RISK_MULTIPLIER") "2.0" c.atr_risk_multiplier
  pub profit :
      ParsedFrom parse_decimal (getenv "TAKE_PROFIT_MULTIPLIER") "3.0" c.take_profit_multiplier
  pub commission :
      ParsedFrom parse_decimal (getenv "COMMISSION_FEE_PCT") "0.0005" c.commission_fee_pct
  pub exchange : ParsedFrom parse_decimal (getenv "FX_FEE_PCT") "0.0001" c.fx_fee_pct
  pub break_even :
      ParsedFrom parse_decimal (getenv "BREAK_EVEN_ATR_TRIGGER") "1.0" c.break_even_atr_trigger
  pub trail : ParsedFrom parse_decimal (getenv "TRAIL_ATR_TRIGGER") "1.5" c.trail_atr_trigger
  pub distance : ParsedFrom parse_decimal (getenv "TRAIL_ATR_DISTANCE") "2.0" c.trail_atr_distance

module _ {D : Type 0} (parse_decimal : String → Option D) (getenv : String → String) where
  decimal_setting-OnSuccess :
      (name fallback : String) {A : Type 0} (P : A → Type 0) (f : D → Fallible Failure A)
      → ((x : D) → ParsedFrom parse_decimal (getenv name) fallback x → OnSuccess P (f x))
      → OnSuccess P (decimal_setting parse_decimal getenv name fallback >>= f)
  unfolding decimal_setting
  decimal_setting-OnSuccess name fallback P f h =
      OnSuccess-or_fail P _ _ f
        λ x parses. h x (or_default-ParsedFrom parse_decimal (getenv name) fallback x parses)

  validate-OnSuccess :
      (P : Config D → Type 0) (c : Config D)
      → (c.alpaca_api_key ≢ ""
          → c.alpaca_api_secret ≢ ""
          → c.alpaca_base_url ≢ ""
          → c.database_url ≢ ""
          → c.bot_api_key ≢ ""
          → c.sentiment_api_key ≢ ""
          → P c)
      → OnSuccess P (validate c)
  unfolding validate
  validate-OnSuccess P c h = test-OnSuccess P _ _ _ λ a. test-OnSuccess P _ _ _ λ b.
      test-OnSuccess P _ _ _ λ d.
        test-OnSuccess P _ _ _
          λ e. test-OnSuccess P _ _ _ λ f. test-OnSuccess P _ _ _ λ g. h a b d e f g

  load-OnSuccess :
      (scan_int : String → Option ℤ)
      → OnSuccess (IsUsable parse_decimal getenv) (load parse_decimal scan_int getenv)
  unfolding load
  load-OnSuccess scan_int =
      decimal_setting-OnSuccess _ _ (IsUsable parse_decimal getenv) _ λ risk risk_e.
        decimal_setting-OnSuccess _ _ (IsUsable parse_decimal getenv) _ λ stop stop_e.
          decimal_setting-OnSuccess _ _ (IsUsable parse_decimal getenv) _ λ profit profit_e.
            decimal_setting-OnSuccess _ _ (IsUsable parse_decimal getenv) _
              λ commission commission_e.
                decimal_setting-OnSuccess _ _ (IsUsable parse_decimal getenv) _ λ fx fx_e.
                  decimal_setting-OnSuccess _ _ (IsUsable parse_decimal getenv) _ λ even even_e.
                    decimal_setting-OnSuccess _ _ (IsUsable parse_decimal getenv) _ λ trail trail_e.
                      decimal_setting-OnSuccess _ _ (IsUsable parse_decimal getenv) _
                        λ distance distance_e.
                          validate-OnSuccess (IsUsable parse_decimal getenv) _ λ a b d e f g.
                            record {
                              broker_key = a;
                              broker_secret = b;
                              broker_url = d;
                              database = e;
                              control_key = f;
                              sentiment_key = g;
                              server_port = or_default-ne (getenv "PORT") "8080" (λ p. cc);
                              index = or_default-ne (getenv "REGIME_SYMBOL") "SPY" (λ p. cc);
                              period = ema_period_setting-pos scan_int getenv;
                              automatic = refl;
                              risk = risk_e;
                              stop_multiple = stop_e;
                              profit = profit_e;
                              commission = commission_e;
                              exchange = fx_e;
                              break_even = even_e;
                              trail = trail_e;
                              distance = distance_e;
                            }

  -- A configuration that is loaded has every key, address, port and index symbol that the clients
  -- need, a positive regime period whatever REGIME_EMA_PERIOD says, an automatic start exactly if
  -- BOT_AUTOSTART is not "false", and each of its eight numbers is what its variable parses to where
  -- that is not empty, and what its default parses to where it is.
  pub load-IsUsable :
      (scan_int : String → Option ℤ) (c : Config D)
      → load parse_decimal scan_int getenv ≡ success c
      → IsUsable parse_decimal getenv c
  load-IsUsable scan_int c e =
      OnSuccess-success (IsUsable parse_decimal getenv) _ c (load-OnSuccess scan_int) e
