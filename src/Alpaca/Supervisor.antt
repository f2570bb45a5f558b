-- ===== src/Alpaca/Supervisor.antt =====
-- internal/alpaca/stream_supervisor.go: the symbols that are wanted and the client that is live. A
-- set of symbols (`map[string]struct{}`) is its test. A client is given by what it is subscribed to:
-- it starts with the symbols it is built with, and the SDK adds and removes those it is asked to.
pub mod Subscriptions
use outbound_api.Prelude.{
  ◌≡◌, refl, ap, Bool, true, false, not, ◌&&◌, ◌||◌, Option, none, some, String, str_eq, List, [],
  ◌∷◌,
}

abbrev pub Symbols : Type 0
Symbols = String → Bool

-- The loops over `symbols` of `Subscribe` and `Unsubscribe`.
abbrev pub add_all : List String → Symbols → Symbols
add_all [] set = set
add_all (s ∷ rest) set = add_all rest (λ t. str_eq t s || set t)

abbrev pub remove_all : List String → Symbols → Symbols
remove_all [] set = set
remove_all (s ∷ rest) set = remove_all rest (λ t. not (str_eq t s) && set t)

-- `connecting` is the client that `Run` has built and not registered yet.
pub record StreamSupervisor : Type 0 where
  pub symbols : Symbols
  pub client : Option Symbols
  pub connecting : Option Symbols

abbrev pub new_stream_supervisor : List String → StreamSupervisor
new_stream_supervisor initial = record {
  symbols = add_all initial (λ t. false);
  client = none;
  connecting = none;
}

abbrev pub on_client : (Symbols → Symbols) → Option Symbols → Option Symbols
on_client f none = none
on_client f (some c) = some (f c)

-- What becomes of a live client whose SDK call answers: a refused call leaves it as it was.
abbrev pub unless : Bool → (Symbols → Symbols) → Symbols → Symbols
unless true f set = set
unless false f set = f set

-- The error is the SDK's, which only a live client asks.
abbrev pub succeeds : Bool → Option Symbols → Bool
succeeds refused none = true
succeeds refused (some c) = not refused

-- `Subscribe` and `Unsubscribe` when the SDK may refuse: whether they return without an error.
unfoldable pub subscribe : Bool → List String → StreamSupervisor → Bool × StreamSupervisor
subscribe refused symbols s = (
  succeeds refused s.client,
  record s {
    symbols = add_all symbols s.symbols;
    client = on_client (unless refused (add_all symbols)) s.client;
  },
)

unfoldable pub unsubscribe : Bool → List String → StreamSupervisor → Bool × StreamSupervisor
unsubscribe refused symbols s = (
  succeeds refused s.client,
  record s {
    symbols = remove_all symbols s.symbols;
    client = on_client (unless refused (remove_all symbols)) s.client;
  },
)

-- The steps of `Run`: a client is built with a snapshot of the symbols; its connection fails, or
-- succeeds and the client is registered; a registered client terminates.
unfoldable pub build_client : StreamSupervisor → StreamSupervisor
build_client s = record s { connecting = some s.symbols }

unfoldable pub connect_failed : StreamSupervisor → StreamSupervisor
connect_failed s = record s { connecting = none }

unfoldable pub set_client : StreamSupervisor → StreamSupervisor
set_client s = record s { client = s.connecting; connecting = none }

unfoldable pub terminated : StreamSupervisor → StreamSupervisor
terminated s = record s { client = none }

-- A subscription comes with whether the SDK refuses it.
pub data Action : Type 0 where
  subscribes unsubscribes : Bool → List String → Action
  builds fails connects terminates : Action

unfoldable pub act : Action → StreamSupervisor → StreamSupervisor
act (subscribes refused symbols) s = (subscribe refused symbols s).1
act (unsubscribes refused symbols) s = (unsubscribe refused symbols s).1
act builds s = build_client s
act fails s = connect_failed s
act connects s = set_client s
act terminates s = terminated s

-- The actions in order.
unfoldable pub act_all : List Action → StreamSupervisor → StreamSupervisor
act_all [] s = s
act_all (a ∷ rest) s = act_all rest (act a s)
