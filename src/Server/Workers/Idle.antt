-- ===== src/Server/Workers/Idle.antt =====
-- A bot that is not running.
use outbound_api.Prelude.{
  ℕ, ltb, length, ◌≡◌, ◌≢◌, refl, ◌∙◌, false, Bool-cases, inl, inr, Option, none, some, List, [],
  ◌∷◌, All,
}
use outbound_api.Decimal.{Decimal}
use outbound_api.Model.{Status}
use outbound_api.Repository.Store.{Env, World}
use outbound_api.Bot.{State, Outcome, done, refused, is_active, pause, stop}
use outbound_api.Http.{
  Bytes, Route, Request, Handler, to_start, to_pause, to_stop, to_status, Method, serve,
  require_api_key, answer, on_post, handle_pause, handle_stop, handle_status, post, other_method,
  bytes_eq, trim_prefix, bearer,
}
use outbound_api.Alpaca.Mapper.{map_alpaca_event_to_status}
use outbound_api.Service.Trade.Updates.NoOrders.{apply_trade_updates-PlacesNone}
use outbound_api.Service.Trade.Updates.{TradeUpdate}
use outbound_api.Server.Channel.{receive}
use outbound_api.Server.Workers.{
  Bar, Server, Wiring, Event, bar_arrives, update_arrives, bar_worker, update_worker, request,
  refresh_tick, reseed_tick, bar_evaluated, handle_bar, next_bar, evaluate_taken, apply_mapped,
  handle_update, happen, happen_all,
}

guarded_idle :
    (key : Bytes) (next : Handler) (r : Request) (s : State)
    → is_active s ≡ false
    → is_active (next r s).1 ≡ false
    → is_active (require_api_key key next r s).1 ≡ false
unfolding require_api_key
guarded_idle key next r s idle after =
    elim (Bool-cases (bytes_eq (trim_prefix r.authorization bearer) key)) [
      | inl known ↦ rw known after
      | inr unknown ↦ rw unknown idle
    ]

answer_idle : (x : Outcome × State) → is_active x.1 ≡ false → is_active (answer x).1 ≡ false
answer_idle (done, s) h = h
answer_idle (refused e, s) h = h

on_post_idle :
    (act : State → Outcome × State) (r : Request) (s : State)
    → is_active s ≡ false
    → is_active (act s).1 ≡ false
    → is_active (on_post act r s).1 ≡ false
on_post_idle act r s idle after = by_method r.method
  where
    by_method : (m : Method) → is_active (on_post act (record r { method = m }) s).1 ≡ false
    by_method post = answer_idle (act s) after
    by_method other_method = idle

pause_idle : (s : State) → is_active s ≡ false → is_active (pause s).1 ≡ false
unfolding is_active pause
pause_idle State.running h = cc
pause_idle State.paused h = refl
pause_idle State.stopped h = refl

stop_idle : (s : State) → is_active s ≡ false → is_active (stop s).1 ≡ false
unfolding is_active stop
stop_idle State.running h = refl
stop_idle State.paused h = refl
stop_idle State.stopped h = refl

-- Only `/bot/start` makes a bot active.
serve_idle :
    (key : Bytes) (route : Route) (r : Request) (s : State)
    → route ≢ to_start
    → is_active s ≡ false
    → is_active (serve key route r s).1 ≡ false
unfolding serve handle_pause handle_stop handle_status
serve_idle key to_start r s other idle = absurd (other refl)
serve_idle key to_pause r s other idle =
    guarded_idle key handle_pause r s idle (on_post_idle pause r s idle (pause_idle s idle))
serve_idle key to_stop r s other idle =
    guarded_idle key handle_stop r s idle (on_post_idle stop r s idle (stop_idle s idle))
serve_idle key to_status r s other idle = guarded_idle key handle_status r s idle idle

module _ {D : Type 0} where
  -- The event is not a request to start the bot.
  abbrev pub StartsNone : Event D → Type 0
  StartsNone (request route r) = route ≢ to_start
  StartsNone e = Unit

module _ {D : Type 0} ⦃dec : Decimal D⦄ (env : Env D) (wiring : Wiring D) where
  -- The bot is still not active, no bar is in flight, and no order was placed.
  abbrev StaysIdle : Server D → Server D → Type 0
  StaysIdle s t = (is_active t.bot ≡ false) × (t.in_flight ≡ []) × (t.world.orders ≡ s.world.orders)

  handle_bar-StaysIdle :
      (got : Option (Bar D)) (s : Server D)
      → s.in_flight ≡ []
      → is_active s.bot ≡ false
      → StaysIdle s (handle_bar got s)
  unfolding handle_bar
  handle_bar-StaysIdle none s empty idle = (idle, empty, refl)
  handle_bar-StaysIdle (some bar) s empty idle = rw idle (idle, empty, refl)

  next_bar-StaysIdle :
      (s : Server D) → s.in_flight ≡ [] → is_active s.bot ≡ false → StaysIdle s (next_bar s)
  unfolding next_bar
  next_bar-StaysIdle s empty idle = elim (Bool-cases (ltb (length s.in_flight) 5)) [
    | inl free ↦ rw free (handle_bar-StaysIdle (receive s.bars).0 _ empty idle)
    | inr busy ↦ rw busy (idle, empty, refl)
  ]

  nothing_taken :
      (n : ℕ) (s : Server D)
      → s.in_flight ≡ []
      → is_active s.bot ≡ false
      → StaysIdle s (happen env wiring (bar_evaluated n) s)
  unfolding happen evaluate_taken
  nothing_taken n s empty idle = rw empty (idle, refl, refl)

  apply_mapped-orders :
      (u : TradeUpdate D) (o : Option Status) (w : World D)
      → (apply_mapped env wiring u o w).orders ≡ w.orders
  unfolding apply_mapped
  apply_mapped-orders u none w = refl
  apply_mapped-orders u (some status) w =
      (apply_trade_updates-PlacesNone env wiring.params u status).same w

  handle_update-StaysIdle :
      (got : Option (TradeUpdate D)) (s : Server D)
      → s.in_flight ≡ []
      → is_active s.bot ≡ false
      → StaysIdle s (handle_update env wiring got s)
  unfolding handle_update
  handle_update-StaysIdle none s empty idle = (idle, empty, refl)
  handle_update-StaysIdle (some u) s empty idle =
      (idle, empty, apply_mapped-orders u (map_alpaca_event_to_status u.event) s.world)

  happen-StaysIdle :
      (e : Event D) (s : Server D)
      → StartsNone e
      → s.in_flight ≡ []
      → is_active s.bot ≡ false
      → StaysIdle s (happen env wiring e s)
  unfolding happen
  happen-StaysIdle (bar_arrives bar) s others empty idle = (idle, empty, refl)
  happen-StaysIdle (update_arrives u) s others empty idle = (idle, empty, refl)
  happen-StaysIdle bar_worker s others empty idle = next_bar-StaysIdle s empty idle
  happen-StaysIdle update_worker s others empty idle =
      handle_update-StaysIdle (receive s.updates).0 _ empty idle
  happen-StaysIdle (bar_evaluated n) s others empty idle = nothing_taken n s empty idle
  happen-StaysIdle (request route r) s other empty idle =
      (serve_idle wiring.api_key route r s.bot other idle, empty, refl)
  happen-StaysIdle (refresh_tick bars refusals listed fetched) s others empty idle =
      (idle, empty, refl)
  happen-StaysIdle (reseed_tick bars fetched) s others empty idle = (idle, empty, refl)

  -- While the bot is paused or stopped, no bar worker is between its test of `IsActive` and the end of
  -- its evaluation, and nobody requests the start, the server places no order, whatever bars and
  -- broker updates arrive and are handled and however the calls fail; and the bot stays inactive.
  pub happen_all-idle :
      (events : List (Event D)) (s : Server D)
      → All StartsNone events
      → s.in_flight ≡ []
      → is_active s.bot ≡ false
      → let t = happen_all env wiring events s in
        (is_active t.bot ≡ false) × (t.world.orders ≡ s.world.orders)
  unfolding happen_all
  happen_all-idle [] s others empty idle = (idle, refl)
  happen_all-idle (e ∷ rest) s others empty idle =
      let (still, none_left, same) = happen-StaysIdle e s others.0 empty idle in
      let (idle', same') = happen_all-idle rest (happen env wiring e s) others.1 none_left still in
      (idle', same' ∙ same)
