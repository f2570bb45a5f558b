-- ===== src/Position/Buy.antt =====
-- `ExecuteBuyTrade` opens no second position of a symbol.
use mathlib.Core.Path.{subst}
use text.Mathlib.TextEquality.{eq_iff}
use outbound_api.Prelude.{
  ℕ, ◌≡◌, refl, sym, ap, ◌∙◌, Bool, true, false, Option, none, some, String, List, [], ◌∷◌, arith,
  any, count, ==_iff, Bool-cases, Option-cases, inl, inr,
}
use outbound_api.Decimal.{Decimal}
use outbound_api.Model.{Status, Trade, Signal, AccountTransfer}
use outbound_api.Repository.Store.{
  Env, World, next_tick, place_order, best_effort, within_transaction, ◌>>=◌, new_uuid, pure, throw,
}
use outbound_api.Repository.Outcome.{
  Ends, Ends-weaken, Ends-bind, Ends-handled, Ends-best_effort, Ends-within_transaction, Holds,
}
use outbound_api.Repository.Trades.{
  create_trade, update_trade, has_open_position, is_open_position, has_sell_child,
}
use outbound_api.Repository.Transfers.{
  has_slot, decrement_remaining_trades, increment_remaining_trades,
}
use outbound_api.Repository.Signals.{mark_executed}
use outbound_api.Repository.Effects.{decrement_effect, increment_effect}
use outbound_api.Repository.Reads.{
  place_order-Reads, new_uuid-Reads, mark_executed-Reads, has_open_position_effect,
}
use outbound_api.Repository.Keeps.{Keeps, pure-Keeps, best_effort-Keeps, Reads-Keeps}
use outbound_api.Service.Trade.Buy.{
  insert_buy, reserve_buy, cancel_buy, cancel_trade_and_restore_slot, settle_buy, abandon_buy,
  place_buy, buy_refused, commit_buy, open_buy, execute_buy_trade, buy_trade, buy_request,
  restore_account,
}
use outbound_api.Service.Trade.Sizing.{RiskParams, size_position}
use outbound_api.Budget.Buy.{buy_refused-keep}
use outbound_api.Position.Rows.{is_position, is_open, is_child, children, positions}
use outbound_api.Position.Tables.{
  view, Single, Stored-Single, Single-Stored, forget-Single, same_trades-Single,
}
use outbound_api.Position.Writes.{create_buy-Stored, update_same-Single, update_less-Single}

pub any-count : {A : Type 0} (p : A → Bool) (xs : List A) → any p xs ≡ false → count p xs ≡ 0
any-count p [] h = refl
any-count p (x ∷ xs) h = ground (arith, any-count p xs)

pub count-any : {A : Type 0} (p : A → Bool) (xs : List A) → count p xs ≡ 0 → any p xs ≡ false
count-any p [] h = refl
count-any p (x ∷ xs) h = ground (arith, count-any p xs)

module _ {D : Type 0} (symbol : String) where
  -- The check of `HasOpenPosition` and the count agree.
  no_positions :
      (ts us : List (Trade D))
      → any (is_open_position ts symbol) us ≡ false
      → count (is_open symbol [] ts) us ≡ 0
  unfolding is_open_position has_sell_child
  no_positions ts [] h = refl
  no_positions ts (t ∷ us) h =
      let rest = no_positions ts us in
      let sold = count-any (is_child [] t.id) ts in ground (arith, ==_iff (children [] ts t.id) 0)

  module _ (env : Env D) where
    pub increment-Single :
        (ks : List ℕ) (l : List (Trade D)) (id : ℕ)
        → Keeps (Single symbol ks l) (increment_remaining_trades env id)
    increment-Single ks l id w h =
        Ends-weaken (increment_remaining_trades env id w) (increment_effect env id w)
          (λ _ v (known, same, changed). same_trades-Single symbol ks l w v same h)
          (λ v same. same_trades-Single symbol ks l w v same.0 h)

    pub restore_account-Single :
        (ks : List ℕ) (l : List (Trade D)) (o : Option ℕ)
        → Keeps (Single symbol ks l) (restore_account env o)
    restore_account-Single ks l none = pure-Keeps (Single symbol ks l) tt
    restore_account-Single ks l (some a) = increment-Single ks l a

    module _ (t : Trade D) where
      abbrev Alone : World D → Type 0
      Alone = Holds (Single symbol [] [])

      abbrev Bought : World D → Type 0
      Bought = Holds (Single symbol [] (t ∷ []))

      insert_buy-Single :
          (a : ℕ) (taken : Bool) (w : World D)
          → taken ≡ any (is_open_position w.trades t.symbol) w.trades
          → Alone w
          → Ends (λ _. Bought) (λ _. Unit) (insert_buy env t a taken w)
      unfolding insert_buy
      insert_buy-Single a true w e h = record { outcome = tt }
      insert_buy-Single a false w e h =
          Ends-bind (create_trade env t) (λ _. decrement_remaining_trades env a) w
            (create_buy-Stored symbol env t w first
              (Single-Stored symbol [] [] w.trades w.transfers h))
            λ _ v h'.
              Ends-weaken (decrement_remaining_trades env a v) (decrement_effect env a v)
                (λ _ u (free, same, changed).
                  same_trades-Single symbol [] (t ∷ []) v u same
                    (Stored-Single symbol [] (t ∷ []) v.trades v.transfers h'))
                (λ _ _. tt)
        where
          first : is_position symbol t ≡ true → positions symbol [] w.trades ≡ 0
          first here = no_positions w.trades w.trades (
              subst (λ y. any (is_open_position w.trades y) w.trades ≡ false)
                ((eq_iff t.symbol symbol).0 (ground arith)) (sym e))

      reserve_buy-Single :
          (a : ℕ) (w : World D) → Alone w → Ends (λ _. Bought) (λ _. Unit) (reserve_buy env t a w)
      unfolding reserve_buy
      reserve_buy-Single a w h =
          Ends-bind (has_open_position env t.symbol) (insert_buy env t a) w
            {P = λ taken v. Alone v × (taken ≡ any (is_open_position v.trades t.symbol) v.trades)}
            (Ends-weaken _ (has_open_position_effect env t.symbol w)
              (λ taken v (same, e). (
                same_trades-Single symbol [] [] w v same.0 h,
                e ∙ ap (λ ts. any (is_open_position ts t.symbol) ts) (sym same.0),
              ))
              (λ _ _. tt))
            λ taken v (h', e). insert_buy-Single a taken v e h'

      cancel_buy-Single :
          (w : World D) → Bought w → Ends (λ _. Alone) (λ _. Unit) (cancel_buy env t w)
      unfolding cancel_buy
      cancel_buy-Single w h =
          Ends-bind (update_trade env (record t { status = Status.cancelled }))
            (λ _. restore_account env t.account_transfer_id) w
            (Ends-weaken _
              (update_less-Single symbol env t (record t { status = Status.cancelled }) w refl
                (record { sells = λ id. refl; place = λ e. ground arith }) h)
              (λ _ _ x. x) (λ _ _. tt))
            λ _ v h'.
              Ends-weaken _ (restore_account-Single [] [] t.account_transfer_id v h') (λ _ _ x. x)
                (λ _ _. tt)

      forgotten : (w : World D) → Bought w → Alone w
      forgotten w h = forget-Single symbol [] (t ∷ []) w.trades w.transfers h

      cancel-Single :
          (w : World D) → Bought w → Ends (λ _. Alone) Alone (cancel_trade_and_restore_slot env t w)
      unfolding cancel_trade_and_restore_slot
      cancel-Single w h = Ends-best_effort (within_transaction env (cancel_buy env t)) w Alone (
          Ends-weaken _
            (Ends-within_transaction env (Single symbol [] (t ∷ [])) (λ _. Single symbol [] [])
              (cancel_buy env t) w h (cancel_buy-Single (next_tick w) h))
            (λ _ _ x. x) (λ v x. forgotten v x))

      settle_buy-Single :
          (signal : Signal D) (order : String) (w : World D)
          → Bought w
          → Ends (λ _. Alone) Alone (settle_buy env t signal order w)
      unfolding settle_buy
      settle_buy-Single signal order w h =
          let bought : Trade D = record t { alpaca_order_id = some order } in
          Ends-bind (best_effort (update_trade env bought))
            (λ _. best_effort (mark_executed env signal.id) >>= λ _. pure (some bought)) w
            {P = λ _. Alone}
            (Ends-weaken _
              (best_effort-Keeps (Single symbol [] (t ∷ [])) _
                (update_same-Single symbol env t bought [] [] refl same) w h)
              (λ _ v x. forgotten v x) (λ v x. forgotten v x))
            λ _ v h'.
              Ends-bind (best_effort (mark_executed env signal.id)) (λ _. pure (some bought)) v
                (best_effort-Keeps (Single symbol [] []) _
                  (Reads-Keeps (Single symbol [] []) env _ (mark_executed-Reads env signal.id)) v
                  h')
                λ _ u x. record { outcome = x }
        where
          same :
              (v : Option ℕ)
              → view symbol v (record t { alpaca_order_id = some order }) ≡ view symbol v t
          same none = refl
          same (some id) = refl

      place_buy-Single :
          (signal : Signal D) (w : World D)
          → Bought w
          → Ends (λ _. Alone) Alone (place_buy env t signal w)
      unfolding place_buy abandon_buy
      place_buy-Single signal w h =
          Ends-handled (place_order env (buy_request signal t)) (settle_buy env t signal)
            (abandon_buy env t) w
            (Reads-Keeps (Single symbol [] (t ∷ [])) env _
              (place_order-Reads env (buy_request signal t)) w h)
            (λ order v h'. settle_buy-Single signal order v h')
            (λ e v h'.
              Ends-bind (cancel_trade_and_restore_slot env t) (λ _. throw e) v (cancel-Single v h')
                λ _ u x. record { outcome = x })
            (λ v x. forgotten v x)

      commit_buy-Single :
          (signal : Signal D) (account : AccountTransfer D) (w : World D)
          → Alone w
          → Ends (λ _. Alone) Alone (commit_buy env signal account t w)
      unfolding commit_buy
      commit_buy-Single signal account w h =
          Ends-handled (within_transaction env (reserve_buy env t account.id))
            (λ _. place_buy env t signal) (buy_refused env) w
            (Ends-within_transaction env (Single symbol [] []) (λ _. Single symbol [] (t ∷ []))
              (reserve_buy env t account.id) w h (reserve_buy-Single account.id (next_tick w) h))
            (λ _ v h'. place_buy-Single signal v h') (λ e v h'. buy_refused-keep env Alone e v h')
            (λ v x. x)

module _ {D : Type 0} ⦃dec : Decimal D⦄ (symbol : String) (env : Env D) (cfg : RiskParams D) where
  open_buy-Single :
      (signal : Signal D) (account : AccountTransfer D) (quantity : D)
      → Keeps (Single symbol [] []) (open_buy env cfg signal account quantity)
  unfolding open_buy
  open_buy-Single signal account quantity w h =
      Ends-bind (new_uuid env)
        (λ id. commit_buy env signal account (buy_trade cfg id signal account quantity)) w
        (Reads-Keeps (Single symbol [] []) env _ (new_uuid-Reads env) w h)
        λ id v h'.
          commit_buy-Single symbol env (buy_trade cfg id signal account quantity) signal account v
            h'

  pub execute_buy_trade-Single :
      (signal : Signal D) (account : Option (AccountTransfer D))
      → Keeps (Single symbol [] []) (execute_buy_trade env cfg signal account)
  unfolding execute_buy_trade
  execute_buy_trade-Single signal none w s = record { outcome = s }
  execute_buy_trade-Single signal (some account) w s =
      elim (Bool-cases (has_slot account.remaining_trades)) [
        | inr full ↦ rw full (record { outcome = s })
        | inl free ↦ rw free (elim (Option-cases (size_position cfg signal account)) [
          | inl panics ↦ rw panics (record { outcome = s })
          | inr (q, sized) ↦ rw sized (elim (Bool-cases (dec.le q dec.naught)) [
            | inl nothing ↦ rw nothing (record { outcome = s })
            | inr some_shares ↦ rw some_shares (open_buy-Single signal account q w s)
          ])
        ])
      ]
