-- ===== src/Server/Startup/Manual.antt =====
-- A program that waits for a request before it trades.
use outbound_api.Prelude.{◌≡◌, ap, ◌∙◌, false, not, str_eq, List, All}
use outbound_api.Prelude.Fallible.{success}
use outbound_api.Decimal.{Decimal}
use outbound_api.Repository.Store.{Env}
use outbound_api.Bot.{is_active}
use outbound_api.Server.Workers.{Wiring, Event, happen_all}
use outbound_api.Server.Workers.Idle.{StartsNone, happen_all-idle}
use outbound_api.Server.Startup.{Surroundings, Started, start_up}
use outbound_api.Server.Startup.Ready.{IsWaiting, start_up-IsWaiting}

module _ {D : Type 0} ⦃dec : Decimal D⦄ (x : Surroundings D) where
  IsWaiting-inactive :
      (s : Started D)
      → IsWaiting x s
      → x.getenv "BOT_AUTOSTART" ≡ "false"
      → is_active s.server.bot ≡ false
  IsWaiting-inactive s waiting off = waiting.by_setting ∙ ap (λ t. not (str_eq t "false")) off

  -- When BOT_AUTOSTART is "false" and the program starts, then no order is placed until somebody
  -- requests the start of the bot, whatever else arrives, is handled, requested and ticked, and
  -- however the calls fail.
  pub start_up-orders :
      (s : Started D)
      → start_up x ≡ success s
      → x.getenv "BOT_AUTOSTART" ≡ "false"
      → (env : Env D) (wiring : Wiring D) (events : List (Event D)) → All StartsNone events
      → (happen_all env wiring events s.server).world.orders ≡ x.world.orders
  start_up-orders s e off env wiring events others =
      let waiting = start_up-IsWaiting x s e in
      (happen_all-idle env wiring events s.server others waiting.no_bar
        (IsWaiting-inactive s waiting off)).1
      ∙ waiting.orders
