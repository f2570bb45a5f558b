-- ===== src/Alpaca/Retry.antt =====
-- `ConnectWithRetry` of internal/alpaca/stream_supervisor.go. A round of the loop calls `connectFn`;
-- what the rounds meet is given as a list: whether the context was cancelled during the call or
-- during the wait, and whether the call failed. Delays are whole seconds.
pub mod Waits
use outbound_api.Prelude.{
  ℕ, ◌+◌, ◌*◌, ◌≤◌, ◌<◌, ◌≡◌, refl, ◌⊎◌, inl, inr, List, [], ◌∷◌, arith, ltb, All, if◌then◌else◌,
}

pub data Round : Type 0 where
  cancelled_in_call : Round
  failed : Round
  failed_then_cancelled : Round
  closed : Round

abbrev pub max_delay : ℕ
max_delay = 64

-- `if delay < maxDelay { delay *= 2 }`
unfoldable pub back_off : ℕ → ℕ
back_off delay = if ltb delay max_delay then delay * 2 else delay

-- The waits that are begun, in order, from a given delay.
unfoldable pub retry : ℕ → List Round → List ℕ
retry delay [] = []
retry delay (cancelled_in_call ∷ rest) = []
retry delay (failed ∷ rest) = delay ∷ retry (back_off delay) rest
retry delay (failed_then_cancelled ∷ rest) = delay ∷ []
retry delay (closed ∷ rest) = retry 1 rest

unfoldable pub connect_with_retry : List Round → List ℕ
connect_with_retry = retry 1
