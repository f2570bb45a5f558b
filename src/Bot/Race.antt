-- ===== src/Bot/Race.antt =====
-- Methods of the controller that run at the same time: each is a program of at most two attempts,
-- and the attempts of two callers interleave in any order.
use outbound_api.Prelude.{◌≡◌, refl, ◌⊎◌, inl, inr}
use outbound_api.Bot.{
  State, done, refused, already_running, not_running, already_stopped, start, pause, stop, Between,
  nothing, then_edge, pauses, resumes, restarts, halts, halts_paused, Visits, start_between,
  stop_between,
}

-- What each method does in a state: the outcome and the state after it.
abbrev pub Transitions : State → Type 0
Transitions s =
    ((start s ≡ (done, State.running)) × ((s ≡ State.paused) ⊎ (s ≡ State.stopped))
      ⊎ (start s ≡ (refused already_running, s)) × (s ≡ State.running))
    × ((pause s ≡ (done, State.paused)) × (s ≡ State.running)
        ⊎ (pause s ≡ (refused not_running, s)) × ((s ≡ State.paused) ⊎ (s ≡ State.stopped)))
    × ((stop s ≡ (done, State.stopped)) × ((s ≡ State.running) ⊎ (s ≡ State.paused))
        ⊎ (stop s ≡ (refused already_stopped, s)) × (s ≡ State.stopped))

-- `Start` leads to running from paused or stopped and is refused when running; `Pause` leads to
-- paused from running and is refused otherwise; `Stop` leads to stopped from running or paused and
-- is refused when stopped; a refusal changes nothing.
pub transitions : (s : State) → Transitions s
unfolding start pause stop
transitions State.running = (inr (refl, refl), inl (refl, refl), inl (refl, inl refl))
transitions State.paused = (inl (refl, inl refl), inr (refl, inl refl), inl (refl, inr refl))
transitions State.stopped = (inl (refl, inr refl), inr (refl, inr refl), inr (refl, refl))

-- A run that leads from stopped to paused has passed running.
from_stopped :
    {s t : State} (r : Between s t)
    → s ≡ State.stopped
    → (t ≡ State.stopped) ⊎ Visits State.running r
from_stopped nothing e = inl e
from_stopped (then_edge r pauses) e = elim (from_stopped r e) [
  | inl no_edge ↦ cc
  | inr seen ↦ inr (inl seen)
]
from_stopped (then_edge r resumes) e = inr (inr refl)
from_stopped (then_edge r restarts) e = inr (inr refl)
from_stopped (then_edge r halts) e = inl refl
from_stopped (then_edge r halts_paused) e = inl refl

at_start : {s t : State} (r : Between s t) → Visits s r
at_start nothing = refl
at_start (then_edge r e) = inl (at_start r)

at_end : {s t : State} (r : Between s t) → Visits t r
at_end nothing = refl
at_end (then_edge r e) = inr refl

-- If `Start` is refused as already running, then the bot was running at some time between its two
-- attempts, whatever other calls did there.
start_refused_rightly :
    {s t : State} (r : Between s t)
    → (start_between s t).0 ≡ refused already_running
    → Visits State.running r
unfolding start_between
start_refused_rightly {s = State.running} r e = at_start r
start_refused_rightly {s = State.paused} r e = cc
start_refused_rightly {s = State.stopped} {t = State.running} r e = at_end r
start_refused_rightly {s = State.stopped} {t = State.stopped} r e = cc
start_refused_rightly {s = State.stopped} {t = State.paused} r e = elim (from_stopped r refl) [
  | inl no_path ↦ cc
  | inr seen ↦ seen
]

-- A refusal of `Stop` as already stopped does not mean that the bot was stopped at some time
-- between its two attempts.
pub stop_refused_wrongly : ¬ (
    (s t : State) (r : Between s t)
    → (stop_between s t).0 ≡ refused already_stopped
    → Visits State.stopped r)
unfolding stop_between
stop_refused_wrongly all = elim (all State.paused State.running (then_edge nothing resumes) refl) [
  | inl at_first ↦ cc
  | inr at_last ↦ cc
]

-- If `Stop` is refused as already stopped, then the bot was stopped at some time between its two
-- attempts, or it was paused at the first and running at the second.
pub stop_refused_cases :
    {s t : State} (r : Between s t)
    → (stop_between s t).0 ≡ refused already_stopped
    → Visits State.stopped r ⊎ (s ≡ State.paused) × (t ≡ State.running)
unfolding stop_between
stop_refused_cases {s = State.running} r e = cc
stop_refused_cases {s = State.stopped} r e = inl (at_start r)
stop_refused_cases {s = State.paused} {t = State.running} r e = inr (refl, refl)
stop_refused_cases {s = State.paused} {t = State.stopped} r e = inl (at_end r)
stop_refused_cases {s = State.paused} {t = State.paused} r e = cc
