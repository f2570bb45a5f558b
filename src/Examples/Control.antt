-- ===== src/Examples/Control.antt =====
-- The control endpoints, the middleware and the stream supervisor.
use outbound_api.Prelude.{refl, false, List, [], ◌∷◌, ◌++◌}
use outbound_api.Alpaca.Supervisor.{
  new_stream_supervisor, Action, builds, connects, subscribes, unsubscribes, act_all, build_client,
  set_client, subscribe,
}
use outbound_api.Alpaca.Supervisor.Subscriptions.{Agrees, act_all-Agrees}
use outbound_api.Bot.{State}
use outbound_api.Http.{Bytes, Request, bearer, post, to_stop, serve}
use outbound_api.Http.Guard.{Guarded, serve-Guarded}

abbrev secret : Bytes
secret = b's' ∷ b'3' ∷ []

abbrev good_request : Request
good_request = record { method = post; authorization = bearer ++ secret }

serve-Guarded_example :
    Guarded secret good_request State.running (serve secret to_stop good_request State.running)
serve-Guarded_example = serve-Guarded secret to_stop good_request State.running

-- A client is connected, a symbol is added and another removed.
abbrev stream_actions : List Action
stream_actions =
    builds ∷ connects ∷ subscribes false ("MSFT" ∷ []) ∷ unsubscribes false ("AAPL" ∷ []) ∷ []

act_all-Agrees_example :
    Agrees
      (act_all stream_actions (new_stream_supervisor ("AAPL" ∷ []))).client
      (act_all stream_actions (new_stream_supervisor ("AAPL" ∷ []))).symbols
unfolding build_client set_client subscribe
act_all-Agrees_example =
    act_all-Agrees ("AAPL" ∷ []) stream_actions (tt, (tt, (refl, (refl, tt)))) (refl, (refl, tt))
