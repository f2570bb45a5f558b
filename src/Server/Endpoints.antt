-- ===== src/Server/Endpoints.antt =====
-- cmd/server/main.go: the routes of the HTTP server, and its health check.
use outbound_api.Prelude.{ℕ, Bool, Option, none, some, String, str_eq, if◌then◌else◌}
use outbound_api.Bot.{State}
use outbound_api.Http.{Bytes, Request, Route, to_start, to_pause, to_stop, to_status, serve}

-- The patterns of the ServeMux; each matches its own path only.
unfoldable pub bot_route : String → Option Route
bot_route path =
    if str_eq path "/bot/start"
    then some to_start
    else if str_eq path "/bot/pause"
    then some to_pause
    else if str_eq path "/bot/stop"
    then some to_stop
    else if str_eq path "/bot/status"
    then some to_status
    else none

-- The health check: whether the database answers the ping within two seconds.
unfoldable pub handle_health : Bool → ℕ
handle_health ping = if ping then 200 else 503

abbrev pub serve_bot : Bytes → Option Route → Request → State → ℕ × State
serve_bot key none r s = (404, s)
serve_bot key (some route) r s = let (response, s') = serve key route r s in (response.code, s')

-- The status code of the answer to a request on a path, and the state of the bot after it.
unfoldable pub serve_path : Bytes → Bool → String → Request → State → ℕ × State
serve_path key ping path r s =
    if str_eq path "/health" then (handle_health ping, s) else serve_bot key (bot_route path) r s
