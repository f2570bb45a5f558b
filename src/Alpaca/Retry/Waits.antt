-- ===== src/Alpaca/Retry/Waits.antt =====
-- The waits between reconnects: they double from 1 second to 64 and stay there.
use outbound_api.Prelude.{
  ℕ, zero, suc, ◌+◌, ◌*◌, ◌≤◌, ◌≡◌, refl, ap, ◌∙◌, Option, none, some, List, [], ◌∷◌, ◌++◌, arith,
  ltb, All, if◌then◌else◌,
}
use outbound_api.Alpaca.Retry.{
  Round, cancelled_in_call, failed, failed_then_cancelled, closed, back_off, retry,
  connect_with_retry,
}

-- 2 to the power n.
abbrev power_of_two : ℕ → ℕ
power_of_two zero = 1
power_of_two (suc n) = power_of_two n * 2

-- A power of two of seconds, up to 64.
abbrev pub IsWait : ℕ → Type 0
IsWait d = (k : ℕ) × (k ≤ 6) × (d ≡ power_of_two k)

abbrev at_most_six : ℕ → ℕ
at_most_six n = if ltb n 6 then n else 6

abbrev failures : ℕ → List Round
failures zero = []
failures (suc n) = failed ∷ failures n

abbrev nth : ℕ → List ℕ → Option ℕ
nth n [] = none
nth zero (x ∷ xs) = some x
nth (suc n) (x ∷ xs) = nth n xs

back_off_power : (k : ℕ) → k ≤ 6 → back_off (power_of_two k) ≡ power_of_two (at_most_six (suc k))
unfolding back_off
back_off_power zero h = refl
back_off_power (suc zero) h = refl
back_off_power (suc (suc zero)) h = refl
back_off_power (suc (suc (suc zero))) h = refl
back_off_power (suc (suc (suc (suc zero)))) h = refl
back_off_power (suc (suc (suc (suc (suc zero))))) h = refl
back_off_power (suc (suc (suc (suc (suc (suc zero)))))) h = refl
back_off_power (suc (suc (suc (suc (suc (suc (suc k))))))) h = absurd (omega (arith, h))

at_most_six-le : (n : ℕ) → at_most_six n ≤ 6
at_most_six-le n = ground arith

back_off-IsWait : (d : ℕ) → IsWait d → IsWait (back_off d)
back_off-IsWait d (k, le, e) =
    (at_most_six (suc k), at_most_six-le (suc k), rw e (back_off_power k le))

retry-IsWait : (d : ℕ) (rounds : List Round) → IsWait d → All IsWait (retry d rounds)
unfolding retry
retry-IsWait d [] h = tt
retry-IsWait d (cancelled_in_call ∷ rest) h = tt
retry-IsWait d (failed ∷ rest) h = (h, retry-IsWait (back_off d) rest (back_off-IsWait d h))
retry-IsWait d (failed_then_cancelled ∷ rest) h = (h, tt)
retry-IsWait d (closed ∷ rest) h = retry-IsWait 1 rest (0, omega arith, refl)

-- Whatever the rounds meet, every wait between two of them is 1, 2, 4, 8, 16, 32 or 64 seconds.
pub waits_bounded : (rounds : List Round) → All IsWait (connect_with_retry rounds)
unfolding connect_with_retry
waits_bounded rounds = retry-IsWait 1 rounds (0, omega arith, refl)

nth_from :
    (n k : ℕ) (rest : List Round)
    → k ≤ 6
    → nth n (retry (power_of_two k) (failures (suc n) ++ rest))
      ≡ some (power_of_two (at_most_six (k + n)))
unfolding retry
nth_from zero k rest h = rw (same k h) refl
  where
    same : (k : ℕ) → k ≤ 6 → at_most_six (k + 0) ≡ k
    same k h = ground arith
nth_from (suc n) k rest h =
    step (power_of_two k) n rest
    ∙ ap (λ d. nth n (retry d (failures (suc n) ++ rest))) (back_off_power k h)
    ∙ nth_from n (at_most_six (suc k)) rest (at_most_six-le (suc k))
    ∙ ap (λ j. some (power_of_two j)) (capped k n)
  where
    step :
        (d n : ℕ) (rest : List Round)
        → nth (suc n) (retry d (failures (suc (suc n)) ++ rest))
          ≡ nth n (retry (back_off d) (failures (suc n) ++ rest))
    step d n rest = refl

    capped : (k n : ℕ) → at_most_six (at_most_six (suc k) + n) ≡ at_most_six (k + suc n)
    capped k n = ground arith

-- After n failures of the first rounds, whatever follows, the next failure waits 2 to the power n
-- seconds, and 64 from n = 6 on: the wait starts at 1, doubles and is capped.
nth_wait_lem :
    (n : ℕ) (rest : List Round)
    → nth n (connect_with_retry (failures (suc n) ++ rest)) ≡ some (power_of_two (at_most_six n))
unfolding connect_with_retry
nth_wait_lem n rest =
    nth_from n 0 rest (omega arith) ∙ ap (λ j. some (power_of_two (at_most_six j))) (plus n)
  where
    plus : (n : ℕ) → 0 + n ≡ n
    plus n = omega arith
