-- ===== src/Http.antt =====
-- internal/http/handlers.go: the bot's control endpoints and the middleware that guards them. Header
-- values and keys are lists of bytes.
pub mod Guard
use outbound_api.Prelude.{
  ℕ, Bool, true, false, ◌&&◌, Option, none, some, String, List, [], ◌∷◌, ◌==◌, if◌then◌else◌,
}
use outbound_api.Bot.{
  State, Outcome, Failure, done, refused, already_running, not_running, already_stopped, name_of,
  start, pause, stop,
}

abbrev pub Bytes : Type 0
Bytes = List ℕ

-- `subtle.ConstantTimeCompare(a, b) == 1`: equal contents.
unfoldable pub bytes_eq : Bytes → Bytes → Bool
bytes_eq [] [] = true
bytes_eq (a ∷ rest) (b ∷ rest') = a == b && bytes_eq rest rest'
bytes_eq _ _ = false

-- What is left of the text behind a prefix, if it has that prefix.
unfoldable pub strip : Bytes → Bytes → Option Bytes
strip [] s = some s
strip (p ∷ ps) [] = none
strip (p ∷ ps) (c ∷ s) = let rest = strip ps s in if p == c then rest else none

abbrev pub or_whole : Option Bytes → Bytes → Bytes
or_whole none s = s
or_whole (some rest) s = rest

-- `strings.TrimPrefix(s, prefix)`
unfoldable pub trim_prefix : Bytes → Bytes → Bytes
unfolding strip
trim_prefix s prefix = or_whole (strip prefix s) s

abbrev pub bearer : Bytes
bearer = b'B' ∷ b'e' ∷ b'a' ∷ b'r' ∷ b'e' ∷ b'r' ∷ b' ' ∷ []

pub data Method : Type 0 where
  post other_method : Method

pub record Request : Type 0 where
  pub method : Method
  pub authorization : Bytes

pub data ErrorText : Type 0 where
  unauthorized method_not_allowed : ErrorText
  refusal : Failure → ErrorText

pub data Body : Type 0 where
  status_response : String → Body
  error_response : ErrorText → Body

pub record Response : Type 0 where
  pub code : ℕ
  pub body : Body

-- A handler runs on the controller's state.
abbrev pub Handler : Type 0
Handler = Request → State → Response × State

abbrev pub reply : ℕ → Body → State → Response × State
reply code body s = (record { code = code; body = body }, s)

-- `RequireAPIKey`
unfoldable pub require_api_key : Bytes → Handler → Handler
require_api_key key next r s =
    if bytes_eq (trim_prefix r.authorization bearer) key
    then next r s
    else reply 401 (error_response unauthorized) s

-- The answer to a state change: 200 with the new state, or 409 with the error.
abbrev pub answer : Outcome × State → Response × State
answer (done, s) = reply 200 (status_response (name_of s)) s
answer (refused e, s) = reply 409 (error_response (refusal e)) s

-- The three handlers differ in the controller's method.
abbrev pub on_post : (State → Outcome × State) → Handler
on_post act r s = elim r.method [
  | post ↦ answer (act s)
  | other_method ↦ reply 405 (error_response method_not_allowed) s
]

unfoldable pub handle_start : Handler
handle_start = on_post start

unfoldable pub handle_pause : Handler
handle_pause = on_post pause

unfoldable pub handle_stop : Handler
handle_stop = on_post stop

unfoldable pub handle_status : Handler
handle_status r s = reply 200 (status_response (name_of s)) s

-- The routes of main under `/bot/`, each behind the middleware.
pub data Route : Type 0 where
  to_start to_pause to_stop to_status : Route

unfoldable pub serve : Bytes → Route → Handler
serve key to_start = require_api_key key handle_start
serve key to_pause = require_api_key key handle_pause
serve key to_stop = require_api_key key handle_stop
serve key to_status = require_api_key key handle_status
