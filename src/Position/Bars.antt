-- ===== src/Position/Bars.antt =====
-- A bar, and a broker event, leave at most one position of a symbol open.
use outbound_api.Prelude.{
  ℕ, ◌≡◌, refl, sym, ◌∙◌, ap, ◌&&◌, false, Option, none, some, [], ◌∷◌, String, arith, Bool-cases,
  inl, inr, find,
}
use mathlib.Core.Option.{some-injective}
use outbound_api.Prelude.Table.{lookup-find}
use outbound_api.Decimal.{Decimal}
use outbound_api.Model.{Trade, Signal, AccountTransfer, Status, is_buy, is_terminal, is_void}
use outbound_api.Repository.Store.{Env, World, next_tick, ◌>>◌, ◌>>=◌, pure}
use outbound_api.Repository.Outcome.{Ends, Ends-weaken, Ends-bind, Ends-within_transaction, Holds}
use outbound_api.Repository.Trades.{update_trade, get_by_alpaca_order_id, same_order}
use outbound_api.Repository.Effects.{SameTables-Holds}
use outbound_api.Repository.Transfers.{get_available_budget}
use outbound_api.Repository.Reads.{get_by_alpaca_order_id_effect, get_available_budget-Reads}
use outbound_api.Repository.Keeps.{Keeps, pure-Keeps, bind-Keeps, if-Keeps, Reads-Keeps}
use outbound_api.Repository.Alike.{trade_id}
use outbound_api.Indicator.Cache.{IndicatorCache}
use outbound_api.Indicator.Regime.{RegimeCache}
use outbound_api.Service.Signal.{Provider, evaluate_buy_signal}
use outbound_api.Service.Signal.Gates.{evaluate_buy_signal-live_gates}
use outbound_api.Service.Trade.Sizing.{RiskParams}
use outbound_api.Service.Trade.Buy.{execute_buy_trade}
use outbound_api.Service.Trade.Exits.{evaluate_and_execute_exits}
use outbound_api.Service.Trade.Updates.{
  TradeUpdate, reconciled, restore_slot, reconcile, apply_to, apply_trade_updates,
}
use outbound_api.Strategy.AdaptiveExit.{AdaptiveExitParams}
use outbound_api.Strategy.Live.{BarEvent, buy_with, enter, live_evaluate_bar}
use outbound_api.Strategy.Trading.{shadow_evaluate_bar, evaluate_bar}
use outbound_api.Strategy.Trading.Writes.{shadow_evaluate_bar-Keeps}
use outbound_api.Position.Tables.{view, Single, filter-Single, forget-Single}
use outbound_api.Position.Writes.{update_same-Single, update_less-Single}
use outbound_api.Position.Buy.{restore_account-Single, execute_buy_trade-Single}
use outbound_api.Position.Exits.{evaluate_and_execute_exits-Single}

module _ {D : Type 0} ⦃dec : Decimal D⦄ (symbol : String) (env : Env D) (cfg : RiskParams D) where
  buy_with-Single :
      (signal : Signal D) (o : Option (AccountTransfer D))
      → Keeps (Single symbol [] []) (buy_with env cfg signal o)
  unfolding buy_with
  buy_with-Single signal none = pure-Keeps (Single symbol [] []) tt
  buy_with-Single signal (some budget) =
      bind-Keeps (Single symbol [] []) (execute_buy_trade env cfg signal (some budget))
        (λ _. pure tt) (execute_buy_trade-Single symbol env cfg signal (some budget))
        λ _. pure-Keeps (Single symbol [] []) tt

  enter-Single : (o : Option (Signal D)) → Keeps (Single symbol [] []) (enter env cfg o)
  unfolding enter
  enter-Single none = pure-Keeps (Single symbol [] []) tt
  enter-Single (some signal) =
      bind-Keeps (Single symbol [] []) (get_available_budget env) (buy_with env cfg signal)
        (Reads-Keeps (Single symbol [] []) env _ (get_available_budget-Reads env))
        (buy_with-Single signal)

  live_evaluate_bar-Single :
      (provider : Provider) (cache : IndicatorCache D) (event : BarEvent D)
      → Keeps (Single symbol [] []) (live_evaluate_bar env cfg provider cache event)
  unfolding live_evaluate_bar
  live_evaluate_bar-Single provider cache event =
      let T = Single symbol [] [] in
      let evaluates = evaluate_buy_signal env provider cache event.symbol event.price in
      bind-Keeps T (evaluate_and_execute_exits env event.symbol event.price)
        (λ _. evaluates >>= enter env cfg)
        (evaluate_and_execute_exits-Single symbol env event.symbol event.price)
        λ _.
          bind-Keeps T evaluates (enter env cfg)
            (λ w h.
              Ends-weaken (evaluates w)
                (evaluate_buy_signal-live_gates env provider cache event.symbol event.price w)
                (λ _ v told. SameTables-Holds T w v told.1 h)
                (λ v same. SameTables-Holds T w v same h))
            enter-Single

  -- Writing the peak of a trade that has been read.
  shadow-Single :
      (p : AdaptiveExitParams D) (regime : RegimeCache) (provider : Provider)
      (cache : IndicatorCache D) (event : BarEvent D)
      → Keeps (Single symbol [] []) (shadow_evaluate_bar env p regime provider cache event)
  shadow-Single =
      shadow_evaluate_bar-Keeps env (Single symbol [] []) (Single symbol [])
        (filter-Single symbol [])
        (λ t l x.
          update_same-Single symbol env t (record t { peak_price = some x }) [] l refl (same t x))
        (λ t l ts fs h. record { unique = h.unique; one = h.one; known = λ v. (h.known v).1 })
        (λ ts fs h. h)
    where
      same :
          (t : Trade D) (x : D) (v : Option ℕ)
          → view symbol v (record t { peak_price = some x }) ≡ view symbol v t
      same t x none = refl
      same t x (some id) = refl

  pub evaluate_bar-Single :
      (p : AdaptiveExitParams D) (regime : RegimeCache) (shadow_provider provider : Provider)
      (cache : IndicatorCache D) (event : BarEvent D)
      → Keeps
          (Single symbol [] [])
          (evaluate_bar env cfg p regime shadow_provider provider cache event)
  unfolding evaluate_bar
  evaluate_bar-Single p regime shadow_provider provider cache event =
      bind-Keeps (Single symbol [] [])
        (shadow_evaluate_bar env p regime shadow_provider cache event) _
        (shadow-Single p regime shadow_provider cache event)
        λ _. live_evaluate_bar-Single provider cache event

  -- A broker event may end the position of a trade that is not over, and opens none.
  reconcile-Single :
      (u : TradeUpdate D) (status : Status) (t : Trade D) (w : World D)
      → is_terminal t.status ≡ false
      → Holds (Single symbol [] (t ∷ [])) w
      → Ends
          (λ _. Holds (Single symbol [] []))
          (Holds (Single symbol [] []))
          (reconcile env cfg u status t w)
  unfolding reconcile restore_slot reconciled
  reconcile-Single u status t w live h =
      let T = Single symbol [] [] in
      Ends-weaken _
        (Ends-within_transaction env (Single symbol [] (t ∷ [])) (λ _. T)
          (update_trade env (reconciled cfg u status t) >> restore_slot env status t) w h
          (Ends-bind (update_trade env (reconciled cfg u status t)) (λ _. restore_slot env status t)
            (next_tick w)
            (Ends-weaken _
              (update_less-Single symbol env t (reconciled cfg u status t) (next_tick w) refl
                (record { sells = λ id. refl; place = λ e. ground arith }) h)
              (λ _ _ x. x) (λ _ _. tt))
            λ _ v x.
              Ends-weaken _
                (if-Keeps T (is_void status && is_buy t.side) _ _
                  (restore_account-Single symbol env [] [] t.account_transfer_id) (pure-Keeps T tt)
                  v x)
                (λ _ _ y. y) (λ _ _. tt)))
        (λ _ _ x. x) (λ v x. forget-Single symbol [] (t ∷ []) v.trades v.transfers x)

  pub apply_trade_updates-Single :
      (u : TradeUpdate D) (status : Status)
      → Keeps (Single symbol [] []) (apply_trade_updates env cfg u status)
  unfolding apply_trade_updates apply_to
  apply_trade_updates-Single u status w s =
      let T = Single symbol [] [] in
      Ends-bind (get_by_alpaca_order_id env u.order_id) (apply_to env cfg u status) w
        {P = λ found. Holds λ ts fs.
          T ts fs × (found ≡ find (λ t. same_order t.alpaca_order_id (some u.order_id)) ts)}
        (Ends-weaken _ (get_by_alpaca_order_id_effect env u.order_id w)
          (λ found v (same, e). (SameTables-Holds T w v same s, rw same.0 e))
          (λ v same. SameTables-Holds T w v same s))
        λ found v (s', e). go found v s' e
    where
      go :
          (found : Option (Trade D)) (v : World D)
          → Holds (Single symbol [] []) v
          → found ≡ find (λ t. same_order t.alpaca_order_id (some u.order_id)) v.trades
          → Ends
              (λ _. Holds (Single symbol [] []))
              (Holds (Single symbol [] []))
              (apply_to env cfg u status found v)
      go none v s' e = record { outcome = s' }
      go (some t) v s' e = elim (Bool-cases (is_terminal t.status)) [
        | inl over ↦ rw over (record { outcome = s' })
        | inr live ↦ rw live (
            let row = lookup-find trade_id _ v.trades t s'.unique (sym e) in
            reconcile-Single u status t v live (record {
              unique = s'.unique;
              one = s'.one;
              known = λ x. (λ r e'. ap (view symbol x) (some-injective r t (sym e' ∙ row)), tt);
            }))
      ]
