-- ===== src/Service/Trade/Exits/Sells.antt =====
-- `EvaluateAndExecuteExits` with a database that answers: it returns.
use outbound_api.Prelude.{
  ℕ, ◌+◌, ◌≤◌, ◌≡◌, refl, ap, ◌∙◌, true, false, not, ◌&&◌, none, some, String, List, [], ◌∷◌, ◌++◌,
  arith, ◌==◌, ==_iff, any, filter, All, Bool-cases, Option-cases, inl, inr,
}
use outbound_api.Prelude.Table.{has_key, Unique, has_key-append}
use outbound_api.Decimal.{Decimal}
use outbound_api.Model.{Trade, Signal, is_sell}
use outbound_api.Repository.Store.{
  Env, World, M, Result, ok, err, panicked, next_tick, ◌>>=◌, new_uuid, time_now, pure,
}
use outbound_api.Repository.Trades.{
  has_sell_child, same_order, same_parent, trade_refusal, stored, create_trade,
}
use outbound_api.Repository.Signals.{stored_signal, insert_signal, create_signal}
use outbound_api.Repository.Alike.{trade_id}
use outbound_api.Service.Trade.Sell.{sell_trade_of}
use outbound_api.Service.Trade.Exits.{
  ExitPair, exit_reason, exit_signal, insert_exit, create_exit, open_exit, add_exit, collect_exits,
}
use outbound_api.Service.Trade.Exits.Ready.{
  signal_id, IsReliable, IsFresh, Sellable, any_never, any-filter, append-Sellable,
}

module _ {D : Type 0} where
  -- Past a call that returns.
  pub ok-bind :
      {A B : Type 0} (m : M D A) (f : A → M D B) (w v : World D) (a : A)
      → m w ≡ (ok a, v)
      → (m >>= f) w ≡ f a v
  ok-bind {A} {B} m f w v a e = ap go e
    where
      go : Result A × World D → Result B × World D
      go x = elim x.0 [ ok a ↦ f a x.1 | err e ↦ (err e, x.1) | panicked ↦ (panicked, x.1) ]

module _ {D : Type 0} (env : Env D) where
  create_signal-ok :
      (s : Signal D) (w : World D)
      → env.db_fails w.tick ≡ false
      → has_key signal_id s.id w.signals ≡ false
      → create_signal env s w ≡ (
        ok tt,
        record (next_tick w) { signals = w.signals ++ (stored_signal env (w.tick + 1) s ∷ []) },
      )
  unfolding create_signal insert_signal
  create_signal-ok s w good fresh = rw (good, fresh) refl

  create_trade-ok :
      (t : Trade D) (w : World D)
      → env.db_fails w.tick ≡ false
      → has_key trade_id t.id w.trades ≡ false
      → trade_refusal (next_tick w) t ≡ none
      → create_trade env t w
        ≡ (ok tt, record (next_tick w) { trades = w.trades ++ (stored env t ∷ []) })
  unfolding create_trade
  create_trade-ok t w good fresh legal = rw (good, fresh, legal) refl

module _ {D : Type 0} where
  -- The constraints let the sell of a trade in.
  sell-legal :
      (t sell : Trade D) (k : ℕ) (w : World D)
      → Sellable w.trades w.transfers t
      → sell.parent_id ≡ some t.id
      → sell.alpaca_order_id ≡ none
      → sell.account_transfer_id ≡ t.account_transfer_id
      → sell.signal_id ≡ some k
      → has_key signal_id k w.signals ≡ true
      → trade_refusal w sell ≡ none
  unfolding trade_refusal has_sell_child
  sell-legal t sell k w can parent order transfer signal known =
      let stored = can.stored in
      let funded = can.funded in
      let no_order : any (λ r. same_order r.alpaca_order_id none)
            (filter (λ r. not (r.id == sell.id)) w.trades)
          ≡ false =
        any_never (λ r. same_order r.alpaca_order_id none)
          (filter (λ r. not (r.id == sell.id)) w.trades) (λ r. ground arith) in
      let no_sell : any (λ r. is_sell r.side && same_parent r.parent_id (some t.id))
            (filter (λ r. not (r.id == sell.id)) w.trades)
          ≡ false =
        any-filter _ (λ r. is_sell r.side && same_parent r.parent_id (some t.id))
          (λ r. not (r.id == sell.id)) w.trades (λ r. ground arith) can.unsold in
      rw (parent, order, transfer, signal, no_order, no_sell) (ground arith)

-- A row with a new identifier leaves the later identifiers new.
later_fresh :
    {D R : Type 0} (env : Env D) (key : R → ℕ) (rows : List R) (r : R) (i j : ℕ)
    → IsReliable env
    → key r ≡ env.new_uuid i
    → i + 1 ≤ j
    → has_key key (env.new_uuid j) rows ≡ false
    → has_key key (env.new_uuid j) (rows ++ (r ∷ [])) ≡ false
later_fresh env key rows r i j reliable drawn later fresh =
    has_key-append key (env.new_uuid j) rows r
    ∙ rw (fresh, drawn)
        (elim (Bool-cases (env.new_uuid i == env.new_uuid j)) [
          | inl same ↦
              let again =
                reliable.distinct i j ((==_iff (env.new_uuid i) (env.new_uuid j)).0 same) in
              absurd (omega arith)
          | inr other ↦ other
        ])

module _ {D : Type 0} ⦃dec : Decimal D⦄ (env : Env D) (price : D) (reason : String) (t : Trade D)
    (w : World D) where
  abbrev drawn_signal : Signal D
  drawn_signal = exit_signal (env.new_uuid w.tick) price reason t (env.now (w.tick + 1))

  -- When the signal is stored, and the identifier of the sell drawn.
  abbrev at_signal : World D
  at_signal = record w {
    signals = w.signals ++ (stored_signal env (w.tick + 1 + 1 + 1) drawn_signal ∷ []);
    tick = w.tick + 1 + 1 + 1;
  }

  abbrev pair : ExitPair D
  pair = record {
    signal = drawn_signal;
    sell_trade = sell_trade_of (env.new_uuid (w.tick + 1 + 1 + 1)) t drawn_signal price;
  }

  abbrev after_exit : World D
  after_exit = record at_signal {
    trades = w.trades ++ (stored env pair.sell_trade ∷ []);
    tick = w.tick + 1 + 1 + 1 + 1 + 1;
  }

  module _ (reliable : IsReliable env) (fresh : IsFresh env w) where
    open_exit-ok :
        Sellable w.trades w.transfers t → open_exit env price reason t w ≡ (ok pair, after_exit)
    unfolding open_exit create_exit insert_exit new_uuid time_now
    open_exit-ok can =
        ok-bind (create_signal env drawn_signal) (λ _. new_uuid env >>= sells)
          (next_tick (next_tick w)) at_signal tt
          (create_signal-ok env drawn_signal (next_tick (next_tick w))
            (reliable.answers (w.tick + 1 + 1)) (fresh.signals w.tick (omega arith)))
        ∙ ok-bind (create_trade env pair.sell_trade) (λ _. pure pair) (next_tick at_signal)
            after_exit tt
            (create_trade-ok env pair.sell_trade (next_tick at_signal)
              (reliable.answers (w.tick + 1 + 1 + 1 + 1))
              (fresh.trades (w.tick + 1 + 1 + 1) (omega arith))
              (sell-legal t pair.sell_trade (env.new_uuid w.tick) (next_tick (next_tick at_signal))
                can refl refl refl refl
                (has_key-append signal_id (env.new_uuid w.tick) w.signals
                    (stored_signal env (w.tick + 1 + 1 + 1) drawn_signal)
                  ∙ ground (arith, ==_iff (env.new_uuid w.tick) (env.new_uuid w.tick)))))
      where
        sells : ℕ → M D (ExitPair D)
        sells id =
            insert_exit env
              (record { signal = drawn_signal; sell_trade = sell_trade_of id t drawn_signal price })

    after_exit-IsFresh : IsFresh env after_exit
    after_exit-IsFresh = record {
      trades = λ j later.
          later_fresh env trade_id w.trades (stored env pair.sell_trade) (w.tick + 1 + 1 + 1) j
            reliable refl (omega arith) (fresh.trades j (omega arith));
      signals = λ j later.
          later_fresh env signal_id w.signals (stored_signal env (w.tick + 1 + 1 + 1) drawn_signal)
            w.tick j reliable refl (omega arith) (fresh.signals j (omega arith));
    }

module _ {D : Type 0} ⦃dec : Decimal D⦄ (env : Env D) (price : D) (reliable : IsReliable env) where
  -- The loop collects an exit for every trade that reaches a level.
  pub collect_exits-ok :
      (ts : List (Trade D)) (w : World D)
      → IsFresh env w
      → Unique trade_id ts
      → All (Sellable w.trades w.transfers) ts
      → (ps : List (ExitPair D)) × (v : World D) × (collect_exits env price ts w ≡ (ok ps, v))
  unfolding collect_exits
  collect_exits-ok [] w fresh u can = ([], w, refl)
  collect_exits-ok (t ∷ ts) w fresh u can = elim (Option-cases (exit_reason price t)) [
    | inl holds ↦ rw holds (collect_exits-ok ts w fresh u.1 can.1)
    | inr (reason, exits) ↦
        let p = pair env price reason t w in
        let next : World D = after_exit env price reason t w in
        let (ps, v, rest) =
          collect_exits-ok ts next (after_exit-IsFresh env price reason t w reliable fresh) u.1 (
            append-Sellable w.trades (stored env p.sell_trade) w.transfers t.id ts refl u.0
              can.1) in
        rw exits (
          p ∷ ps,
          v,
          ok-bind (open_exit env price reason t) (add_exit env (collect_exits env price ts)) w next
                p (open_exit-ok env price reason t w reliable fresh can.0)
              ∙ ok-bind (collect_exits env price ts) (λ rest. pure (p ∷ rest)) next v ps rest,
        )
  ]
