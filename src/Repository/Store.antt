-- ===== src/Repository/Store.antt =====
-- The database and the broker as the program sees them. A call takes the world and returns a result
-- and the new world. What the program does not decide is an environment `Env`, asked at the number
-- of the call: whether the database fails the call, which rows other transactions lock, what the
-- broker answers and whether it keeps an order that it answers with an error, the identifiers of uuid.New, the clock, and how a DECIMAL(19,4) column rounds.
-- `within_transaction` is internal/database/transactor.go.
use outbound_api.Prelude.{ℕ, ◌+◌, Bool, Option, none, some, String, List, ◌∷◌, if◌then◌else◌}
use outbound_api.Model.{Side, Trade, Signal, AccountTransfer, ShadowExitDecision}

pub record Env (D : Type 0) : Type 0 where
  pub db_fails : ℕ → Bool
  pub is_locked : ℕ → ℕ → Bool
  pub place_order : ℕ → Option String
  pub is_kept : ℕ → Bool
  pub new_uuid : ℕ → ℕ
  pub now : ℕ → ℕ
  pub column : D → D

-- alpaca.PlaceOrderRequest of a market order for the day.
pub record OrderRequest (D : Type 0) : Type 0 where
  pub symbol : String
  pub qty : D
  pub side : Side

pub record World (D : Type 0) : Type 0 where
  pub trades : List (Trade D)
  pub signals : List (Signal D)
  pub transfers : List (AccountTransfer D)
  pub decisions : List (ShadowExitDecision D)
  pub orders : List (OrderRequest D)
  pub tick : ℕ

pub data Error : Type 0 where
  db_fault unique_violation foreign_key_violation : Error
  no_remaining_slots position_already_open : Error
  no_account_transfer nil_account no_parent_transfer : Error
  order_failed news_failed : Error

-- `panicked` is a run-time panic, which no handler of the program catches.
pub data Result (A : Type 0) : Type 0 where
  ok : A → Result A
  err : Error → Result A
  panicked : Result A

abbrev pub M : Type 0 → Type 0 → Type 0
M D A = World D → Result A × World D

module _ {D : Type 0} where
  infixl 5 ◌>>=◌ ◌>>◌
  abbrev pub ◌>>=◌ : {A B : Type 0} → M D A → (A → M D B) → M D B
  ◌>>=◌ m f w =
      let (r, w') = m w in
      elim r [ ok a ↦ f a w' | err e ↦ (err e, w') | panicked ↦ (panicked, w') ]

  abbrev pub ◌>>◌ : {A B : Type 0} → M D A → M D B → M D B
  m >> k = m >>= λ _. k

  abbrev pub pure : {A : Type 0} → A → M D A
  pure a w = (ok a, w)

  abbrev pub throw : {A : Type 0} → Error → M D A
  throw e w = (err e, w)

  abbrev pub panic : {A : Type 0} → M D A
  panic w = (panicked, w)

  -- `if err := m; err != nil { slog… }`: the error is logged and dropped.
  abbrev pub best_effort : M D (Unit {0}) → M D (Unit {0})
  best_effort m w =
      let (r, w') = m w in
      elim r [ ok _ ↦ (ok tt, w') | err _ ↦ (ok tt, w') | panicked ↦ (panicked, w') ]

  abbrev pub next_tick : World D → World D
  next_tick w = record w { tick = w.tick + 1 }

  -- A call whose failure the caller handles.
  abbrev pub handled : {A B : Type 0} → M D A → (A → M D B) → (Error → M D B) → M D B
  handled m f g w =
      let (r, w') = m w in elim r [ ok a ↦ f a w' | err e ↦ g e w' | panicked ↦ (panicked, w') ]

  -- ROLLBACK: the tables are those of BEGIN; calls and placed orders are not undone.
  abbrev pub rollback : World D → World D → World D
  rollback w w' = record w' {
    trades = w.trades;
    signals = w.signals;
    transfers = w.transfers;
    decisions = w.decisions;
  }

  module _ (env : Env D) where
    -- One statement: it fails as the environment says, or runs.
    abbrev pub query : {A : Type 0} → (World D → Result A × World D) → M D A
    query f w = if env.db_fails w.tick then (err db_fault, next_tick w) else f (next_tick w)

    abbrev pub commit : {A : Type 0} → World D → A → M D A
    commit start a w =
        if env.db_fails w.tick
        then (err db_fault, rollback start (next_tick w))
        else (ok a, next_tick w)

    abbrev pub finish : {A : Type 0} → World D → Result A × World D → Result A × World D
    finish start (ok a, w) = commit start a w
    finish start (err e, w) = (err e, rollback start w)
    finish start (panicked, w) = (panicked, rollback start w)

    -- `WithinTransaction`: begin, run, commit; any error rolls back.
    unfoldable pub within_transaction : {A : Type 0} → M D A → M D A
    within_transaction m w =
        if env.db_fails w.tick
        then (err db_fault, next_tick w)
        else finish (next_tick w) (m (next_tick w))

    -- The order is with the broker.
    abbrev pub keep_order : OrderRequest D → World D → World D
    keep_order req w = record w { orders = req ∷ w.orders; tick = w.tick + 1 }

    -- `PlaceOrder`: the broker's order id, or an error. An error means that the broker has refused the
    -- order, or that its answer was lost after it has taken the order.
    unfoldable pub place_order : OrderRequest D → M D String
    place_order req w = elim (env.place_order w.tick) [
      | none ↦ (err order_failed, if env.is_kept w.tick then keep_order req w else next_tick w)
      | some order ↦ (ok order, keep_order req w)
    ]

    unfoldable pub new_uuid : M D ℕ
    new_uuid w = (ok (env.new_uuid w.tick), next_tick w)

    unfoldable pub time_now : M D ℕ
    time_now w = (ok (env.now w.tick), next_tick w)
