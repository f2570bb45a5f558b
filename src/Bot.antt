-- ===== src/Bot.antt =====
-- internal/bot/controller.go: the run / pause / stop state. Every method is a few atomic
-- compare-and-swap operations on one word, so concurrent calls are interleavings of these: `Race`.
pub mod Race
use outbound_api.Prelude.{ℕ, ◌≡◌, ◌⊎◌, Bool, true, false, String, ◌==◌, if◌then◌else◌}

pub data State : Type 0 where
  running paused stopped : State

-- `const ( StateRunning State = iota …)`: the words that the atomics compare.
abbrev pub code_of : State → ℕ
code_of State.running = 0
code_of State.paused = 1
code_of State.stopped = 2

abbrev pub name_of : State → String
name_of State.running = "running"
name_of State.paused = "paused"
name_of State.stopped = "stopped"

-- `atomic.CompareAndSwapInt32(&c.state, old, new)`: whether it swapped, and the word after it.
unfoldable pub compare_and_swap : State → State → State → Bool × State
compare_and_swap old new s = if code_of s == code_of old then (true, new) else (false, s)

pub data Failure : Type 0 where
  already_running not_running already_stopped : Failure

pub data Outcome : Type 0 where
  done : Outcome
  refused : Failure → Outcome

-- A second attempt, made when the first one did not swap.
abbrev pub or_else : Bool × State → State → State → Failure → Outcome × State
or_else (true, s) old new e = (done, s)
or_else (false, s) old new e =
    let (swapped, s') = compare_and_swap old new s in (if swapped then done else refused e, s')

unfoldable pub start : State → Outcome × State
unfolding compare_and_swap
start s =
    or_else (compare_and_swap State.paused State.running s) State.stopped State.running
      already_running

unfoldable pub pause : State → Outcome × State
unfolding compare_and_swap
pause s =
    let (swapped, s') = compare_and_swap State.running State.paused s in
    (if swapped then done else refused not_running, s')

unfoldable pub stop : State → Outcome × State
unfolding compare_and_swap
stop s =
    or_else (compare_and_swap State.running State.stopped s) State.paused State.stopped
      already_stopped

unfoldable pub is_active : State → Bool
is_active s = code_of s == code_of State.running

-- `Start` and `Stop` when other calls run between their two attempts: the first one meets `s`, the
-- second one `t`.
abbrev pub or_else_later : Bool × State → State → State → State → Failure → Outcome × State
or_else_later (true, s) old new t e = (done, s)
or_else_later (false, s) old new t e =
    let (swapped, t') = compare_and_swap old new t in (if swapped then done else refused e, t')

unfoldable pub start_between : State → State → Outcome × State
unfolding compare_and_swap
start_between s t =
    or_else_later (compare_and_swap State.paused State.running s) State.stopped State.running t
      already_running

unfoldable pub stop_between : State → State → Outcome × State
unfolding compare_and_swap
stop_between s t =
    or_else_later (compare_and_swap State.running State.stopped s) State.paused State.stopped t
      already_stopped

-- The words that a successful swap of some method replaces, and by which.
pub data Edge : State → State → Type 0 where
  pauses : Edge State.running State.paused
  resumes : Edge State.paused State.running
  restarts : Edge State.stopped State.running
  halts : Edge State.running State.stopped
  halts_paused : Edge State.paused State.stopped

-- What other calls do in between.
pub data Between (s : State) : State → Type 0 where
  nothing : Between s s
  then_edge : {t u : State} → Between s t → Edge t u → Between s u

-- The word was `x` at some time from the first attempt to the second.
abbrev pub Visits : {s t : State} → State → Between s t → Type 0
Visits {s = s} x nothing = x ≡ s
Visits x (then_edge {u = u} r e) = Visits x r ⊎ (x ≡ u)
