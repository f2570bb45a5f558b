-- ===== src/Service/Trade/Exits/Complete.antt =====
-- `EvaluateAndExecuteExits` when nothing fails: it sells everything that is due.
use outbound_api.Prelude.{
  ℕ, ◌+◌, ◌≡◌, refl, ap, ◌∙◌, Bool, true, false, not, ◌&&◌, some, String, List, [], ◌∷◌, arith,
  filter, All,
}
use outbound_api.Prelude.Table.{has_key, Unique}
use outbound_api.Decimal.{Decimal}
use outbound_api.Model.{Trade, AccountTransfer}
use outbound_api.Repository.Store.{
  Env, World, M, Result, ok, err, panicked, next_tick, within_transaction, OrderRequest,
}
use outbound_api.Repository.Outcome.{Ends}
use outbound_api.Repository.Trades.{
  has_sell_child, is_open_buy, must_refer, get_open_buy_trades_by_symbol,
}
use outbound_api.Repository.Alike.{trade_id}
use outbound_api.Service.Trade.Exits.{
  ExitPair, collect_exits, place_exits, exit_transaction, evaluate_and_execute_exits,
}
use outbound_api.Service.Trade.Exits.Due.{due, open_buys}
use outbound_api.Service.Trade.Exits.Answers.{
  sent_accepted, answered, place_exits-answered, evaluate_and_execute_exits-answered,
}
use outbound_api.Service.Trade.Exits.Ready.{
  IsReliable, IsFresh, Sellable, All-filter, filter-passes, filter-Unique, rows-has_key,
}
use outbound_api.Service.Trade.Exits.Sells.{ok-bind, collect_exits-ok}

-- The orders after all of these have been placed, the last one first.
abbrev pub all_placed :
    {D : Type 0} → List (OrderRequest D) → List (OrderRequest D) → List (OrderRequest D)
all_placed [] o = o
all_placed (r ∷ rs) o = all_placed rs (r ∷ o)

answered-all_placed :
    {D : Type 0} (env : Env D) (n : ℕ) (rs o : List (OrderRequest D))
    → ((i : ℕ) → (id : String) × (env.place_order i ≡ some id))
    → answered env n rs o ≡ all_placed rs o
answered-all_placed env n [] o accepts = refl
answered-all_placed env n (r ∷ rs) o accepts =
    let (id, placed) = accepts n in
    ap (answered env (n + 3) rs) (sent_accepted env n id r o placed)
    ∙ answered-all_placed env (n + 3) rs (r ∷ o) accepts

-- A call that can only return.
returned :
    {D : Type 0} (Q : World D → Type 0) (x : Result (Unit {0}) × World D)
    → Ends (λ _. Q) (λ _. ⊥) x
    → (x.0 ≡ ok tt) × Q x.1
returned Q (ok a, v) h = (refl, h.outcome)
returned Q (err e, v) h = absurd h.outcome
returned Q (panicked, v) h = absurd h.outcome

when_ok :
    {D : Type 0} (Q E : World D → Type 0) (x : Result (Unit {0}) × World D)
    → Ends (λ _. Q) E x
    → x.0 ≡ ok tt
    → Q x.1
when_ok Q E (ok a, v) h e = h.outcome
when_ok Q E (err e', v) h e = cc
when_ok Q E (panicked, v) h e = cc

module _ {D : Type 0} (env : Env D) where
  within-ok :
      {A : Type 0} (body : M D A) (w v : World D) (a : A)
      → env.db_fails w.tick ≡ false
      → body (next_tick w) ≡ (ok a, v)
      → env.db_fails v.tick ≡ false
      → within_transaction env body w ≡ (ok a, next_tick v)
  unfolding within_transaction
  within-ok body w v a begins runs commits = rw (begins, runs, commits) refl

  open_buys-ok :
      (symbol : String) (w : World D)
      → env.db_fails w.tick ≡ false
      → get_open_buy_trades_by_symbol env symbol w ≡ (
        ok (
            filter
              (λ t. is_open_buy w.trades symbol t && not (env.is_locked (w.tick + 1) t.id))
              w.trades),
        next_tick w,
      )
  unfolding get_open_buy_trades_by_symbol
  open_buys-ok symbol w good = rw good refl

module _ {D : Type 0} where
  zip_Sellable :
      (ts us : List (Trade D)) (fs : List (AccountTransfer D))
      → All (λ t. has_key trade_id t.id ts ≡ true) us
      → All (λ t. has_sell_child ts t.id ≡ false) us
      → All (λ t. must_refer (λ r. r.id) fs t.account_transfer_id ≡ true) us
      → All (Sellable ts fs) us
  zip_Sellable ts [] fs here unsold funded = tt
  zip_Sellable ts (t ∷ us) fs here unsold funded = (
    record { stored = here.0; unsold = unsold.0; funded = funded.0 },
    zip_Sellable ts us fs here.1 unsold.1 funded.1,
  )

  map_All :
      {P Q : Trade D → Type 0} (us : List (Trade D))
      → ((t : Trade D) → P t → Q t)
      → All P us
      → All Q us
  map_All [] f h = tt
  map_All (t ∷ us) f h = (f t h.0, map_All us f h.1)

module _ {D : Type 0} ⦃dec : Decimal D⦄ (env : Env D) (symbol : String) (w : World D) where
  open_buys-Sellable :
      All
        (λ t. must_refer (λ r. r.id) w.transfers t.account_transfer_id ≡ true)
        (open_buys env symbol w)
      → All (Sellable w.trades w.transfers) (open_buys env symbol w)
  unfolding is_open_buy
  open_buys-Sellable funded =
      let test : Trade D → Bool =
        λ t. is_open_buy w.trades symbol t && not (env.is_locked (w.tick + 1 + 1) t.id) in
      zip_Sellable w.trades (open_buys env symbol w) w.transfers
        (All-filter _ test w.trades (rows-has_key w.trades w.trades (λ k h. h)))
        (map_All (open_buys env symbol w) (λ t h. ground arith) (filter-passes test w.trades))
        funded

  module _ (price : D) (reliable : IsReliable env) where
    -- The transaction commits.
    transaction-ok :
        IsFresh env w
        → Unique trade_id w.trades
        → All (Sellable w.trades w.transfers) (open_buys env symbol w)
        → (ps : List (ExitPair D)) × (v : World D) × (within_transaction env
              (exit_transaction env symbol price)
              w
            ≡ (ok ps, v))
    unfolding exit_transaction
    transaction-ok fresh unique can =
        let start : World D = next_tick (next_tick w) in
        let (ps, v, collected) =
          collect_exits-ok env price reliable (open_buys env symbol w) start
            (record {
              trades = λ j later. fresh.trades j (omega arith);
              signals = λ j later. fresh.signals j (omega arith);
            })
            (filter-Unique _ w.trades unique) can in
        (
          ps,
          next_tick v,
          within-ok env (exit_transaction env symbol price) w v ps (reliable.answers w.tick)
              (ok-bind (get_open_buy_trades_by_symbol env symbol) (collect_exits env price)
                  (next_tick w) start (open_buys env symbol w)
                  (open_buys-ok env symbol (next_tick w) (reliable.answers (w.tick + 1)))
                ∙ collected)
              (reliable.answers v.tick),
        )

    -- If the database answers, the broker accepts every order, identifiers are drawn once and are in
    -- no table, the trades have unique keys and the open buys have their transfers, then the call
    -- returns, and it has placed exactly one sell order for the quantity of each held and unlocked
    -- buy of the symbol whose stop-loss or take-profit the price has reached.
    pub evaluate_and_execute_exits-all_placed :
        ((i : ℕ) → (id : String) × (env.place_order i ≡ some id))
        → IsFresh env w
        → Unique trade_id w.trades
        → All
            (λ t. must_refer (λ r. r.id) w.transfers t.account_transfer_id ≡ true)
            (open_buys env symbol w)
        → let (result, v) = evaluate_and_execute_exits env symbol price w in
          (result ≡ ok tt) × (v.orders ≡ all_placed (due price (open_buys env symbol w)) w.orders)
    unfolding evaluate_and_execute_exits
    evaluate_and_execute_exits-all_placed accepts fresh unique funded =
        let (ps, v, collected) = transaction-ok fresh unique (open_buys-Sellable funded) in
        let exits = evaluate_and_execute_exits env symbol price w in
        let returns : exits.0 ≡ ok tt =
          ap (λ x. x.0)
            (ok-bind (within_transaction env (exit_transaction env symbol price)) (place_exits env)
              w v ps collected)
          ∙ (returned _ (place_exits env ps v) (place_exits-answered env ps v)).0 in
        (
          returns,
          (when_ok _ _ exits (evaluate_and_execute_exits-answered env symbol price w) returns).0
              ∙ answered-all_placed env _ (due price (open_buys env symbol w)) w.orders accepts,
        )
