-- ===== src/Server/Workers/Lifts.antt =====
-- What the evaluation of a bar and the application of a broker event keep of the world is kept whatever
-- happens to the server.
use outbound_api.Prelude.{ltb, length, Bool-cases, inl, inr, Option, none, some, List, [], ◌∷◌}
use outbound_api.Decimal.{Decimal}
use outbound_api.Model.{Status}
use outbound_api.Repository.Store.{Env, World}
use outbound_api.Bot.{is_active}
use outbound_api.Alpaca.Mapper.{map_alpaca_event_to_status}
use outbound_api.Service.Trade.Updates.{TradeUpdate, apply_trade_updates}
use outbound_api.Server.Channel.{receive}
use outbound_api.Server.Refresh.{Feed}
use outbound_api.Server.Workers.{
  Bar, Server, Wiring, Event, bar_arrives, update_arrives, bar_worker, update_worker, request,
  refresh_tick, reseed_tick, bar_evaluated, evaluated, handle_bar, next_bar, take_out,
  evaluate_taken, apply_mapped, handle_update, happen, happen_all,
}

module _ {D : Type 0} ⦃dec : Decimal D⦄ (env : Env D) (wiring : Wiring D) (P : World D → Type 0)
    (bar_keeps : (feed : Feed D) (bar : Bar D) (w : World D)
      → P w
      → P (evaluated env wiring feed bar w))
    (update_keeps : (u : TradeUpdate D) (status : Status) (w : World D)
      → P w
      → P (apply_trade_updates env wiring.params u status w).1) where
  handle_bar-keeps : (got : Option (Bar D)) (s : Server D) → P s.world → P (handle_bar got s).world
  unfolding handle_bar
  handle_bar-keeps none s h = h
  handle_bar-keeps (some bar) s h = elim (Bool-cases (is_active s.bot)) [
    | inl active ↦ rw active h
    | inr idle ↦ rw idle h
  ]

  next_bar-keeps : (s : Server D) → P s.world → P (next_bar s).world
  unfolding next_bar
  next_bar-keeps s h = elim (Bool-cases (ltb (length s.in_flight) 5)) [
    | inl free ↦ rw free (handle_bar-keeps (receive s.bars).0 _ h)
    | inr busy ↦ rw busy h
  ]

  evaluate_taken-keeps :
      (got : Option (Bar D)) (s : Server D) → P s.world → P (evaluate_taken env wiring got s).world
  unfolding evaluate_taken
  evaluate_taken-keeps none s h = h
  evaluate_taken-keeps (some bar) s h = bar_keeps s.feed bar s.world h

  handle_update-keeps :
      (got : Option (TradeUpdate D)) (s : Server D)
      → P s.world
      → P (handle_update env wiring got s).world
  unfolding handle_update apply_mapped
  handle_update-keeps none s h = h
  handle_update-keeps (some u) s h = mapped (map_alpaca_event_to_status u.event)
    where
      mapped : (status : Option Status) → P (apply_mapped env wiring u status s.world)
      mapped none = h
      mapped (some status) = update_keeps u status s.world h

  happen-keeps : (e : Event D) (s : Server D) → P s.world → P (happen env wiring e s).world
  unfolding happen
  happen-keeps (bar_arrives bar) s h = h
  happen-keeps (update_arrives u) s h = h
  happen-keeps bar_worker s h = next_bar-keeps s h
  happen-keeps (bar_evaluated n) s h = evaluate_taken-keeps (take_out n s.in_flight).0 _ h
  happen-keeps update_worker s h = handle_update-keeps (receive s.updates).0 _ h
  happen-keeps (request route r) s h = h
  happen-keeps (refresh_tick bars refusals listed fetched) s h = h
  happen-keeps (reseed_tick bars fetched) s h = h

  pub happen_all-keeps :
      (events : List (Event D)) (s : Server D)
      → P s.world
      → P (happen_all env wiring events s).world
  unfolding happen_all
  happen_all-keeps [] s h = h
  happen_all-keeps (e ∷ rest) s h =
      happen_all-keeps rest (happen env wiring e s) (happen-keeps e s h)
