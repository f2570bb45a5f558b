-- ===== src/Alpaca/Supervisor/Subscriptions.antt =====
-- Whether the live client is subscribed to the symbols that are wanted.
use outbound_api.Prelude.{
  ◌≡◌, refl, ap, Bool, true, false, Option, none, some, String, List, [], ◌∷◌, All,
}
use outbound_api.Alpaca.Supervisor.{
  Symbols, on_client, unless, add_all, remove_all, StreamSupervisor, new_stream_supervisor,
  subscribe, unsubscribe, build_client, connect_failed, set_client, terminated, Action, subscribes,
  unsubscribes, builds, fails, connects, terminates, act, act_all,
}

-- A client that is there is subscribed to a set.
abbrev pub Agrees : Option Symbols → Symbols → Type 0
Agrees none set = Unit
Agrees (some c) set = c ≡ set

abbrev IsAbsent : Option Symbols → Type 0
IsAbsent o = o ≡ none

-- The SDK does not refuse the action.
abbrev pub Accepted : Action → Type 0
Accepted (subscribes refused symbols) = refused ≡ false
Accepted (unsubscribes refused symbols) = refused ≡ false
Accepted a = Unit

-- Nobody subscribes or unsubscribes while a client is being connected.
abbrev pub Undisturbed : List Action → StreamSupervisor → Type 0
Undisturbed [] s = Unit
Undisturbed (subscribes refused symbols ∷ rest) s =
    (s.connecting ≡ none) × Undisturbed rest (subscribe refused symbols s).1
Undisturbed (unsubscribes refused symbols ∷ rest) s =
    (s.connecting ≡ none) × Undisturbed rest (unsubscribe refused symbols s).1
Undisturbed (builds ∷ rest) s = Undisturbed rest (build_client s)
Undisturbed (fails ∷ rest) s = Undisturbed rest (connect_failed s)
Undisturbed (connects ∷ rest) s = Undisturbed rest (set_client s)
Undisturbed (terminates ∷ rest) s = Undisturbed rest (terminated s)

on_client-Agrees :
    (refused : Bool) (f : Symbols → Symbols) (o : Option Symbols) (set : Symbols)
    → refused ≡ false
    → Agrees o set
    → Agrees (on_client (unless refused f) o) (f set)
on_client-Agrees refused f none set e h = tt
on_client-Agrees true f (some c) set e h = cc
on_client-Agrees false f (some c) set e h = ap f h

Agrees-absent : (o : Option Symbols) (set : Symbols) → o ≡ none → Agrees o set
Agrees-absent none set e = tt
Agrees-absent (some c) set e = cc

agree :
    (actions : List Action) (s : StreamSupervisor)
    → All Accepted actions
    → Undisturbed actions s
    → Agrees s.client s.symbols
    → Agrees s.connecting s.symbols
    → Agrees (act_all actions s).client (act_all actions s).symbols
unfolding act_all act subscribe unsubscribe build_client connect_failed set_client terminated
agree [] s granted u live next = live
agree (subscribes refused symbols ∷ rest) s granted u live next =
    agree rest (subscribe refused symbols s).1 granted.1 u.1
      (on_client-Agrees refused (add_all symbols) s.client s.symbols granted.0 live)
      (Agrees-absent s.connecting _ u.0)
agree (unsubscribes refused symbols ∷ rest) s granted u live next =
    agree rest (unsubscribe refused symbols s).1 granted.1 u.1
      (on_client-Agrees refused (remove_all symbols) s.client s.symbols granted.0 live)
      (Agrees-absent s.connecting _ u.0)
agree (builds ∷ rest) s granted u live next = agree rest (build_client s) granted.1 u live refl
agree (fails ∷ rest) s granted u live next = agree rest (connect_failed s) granted.1 u live tt
agree (connects ∷ rest) s granted u live next = agree rest (set_client s) granted.1 u next tt
agree (terminates ∷ rest) s granted u live next = agree rest (terminated s) granted.1 u tt next

-- After any sequence of subscriptions, reconnects and terminations in which the SDK refuses nothing
-- and nobody subscribes or unsubscribes while a client is being connected, a registered client is
-- subscribed to exactly the wanted symbols.
pub act_all-Agrees :
    (initial : List String) (actions : List Action)
    → All Accepted actions
    → Undisturbed actions (new_stream_supervisor initial)
    → Agrees
        (act_all actions (new_stream_supervisor initial)).client
        (act_all actions (new_stream_supervisor initial)).symbols
act_all-Agrees initial actions granted u =
    agree actions (new_stream_supervisor initial) granted u tt tt

-- From no symbols, not every sequence of actions of which the SDK refuses none leaves a registered
-- client subscribed to exactly the wanted symbols.
pub subscription_missed : ¬ (
    (actions : List Action)
    → All Accepted actions
    → Agrees
        (act_all actions (new_stream_supervisor [])).client
        (act_all actions (new_stream_supervisor [])).symbols)
unfolding act_all act subscribe build_client set_client
subscription_missed all =
    let same =
      all (builds ∷ subscribes false ("AAPL" ∷ []) ∷ connects ∷ []) (tt, (refl, (tt, tt))) in
    absurd (false_true (ap (λ set. set "AAPL") same))
  where
    false_true : false ≡ true → ⊥
    false_true e = cc
