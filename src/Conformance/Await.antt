-- ===== src/Conformance/Await.antt =====
-- conformance/utils/http/http.go: `AwaitConvergence`. What happens in each round of its loop is an
-- element of a list: the clock and the function that is tried are not code of the loop.
pub mod Converges
use gateway_api.Prelude.{ℕ, suc, ◌+◌, Bool, true, false, List, [], ◌∷◌, ltb, if◌then◌else◌}

pub record Round : Type 0 where
  -- `<-to` is ready when the round begins
  pub late : Bool
  -- what `fn` answers
  pub completed : Bool
  -- the select after a failed attempt takes `<-to`, not the delay
  pub late_after : Bool

pub data Awaited : Type 0 where
  -- the function returns, after so many attempts
  converged : ℕ → Awaited
  -- the test is stopped, after so many attempts
  timed_out : ℕ → Awaited
  -- the rounds are used up
  awaiting : Awaited

-- The loop, with `successes` and `attempts`. A threshold below 0 is as one of 0.
unfoldable pub await : ℕ → List Round → ℕ → ℕ → Awaited
await threshold [] successes attempts = awaiting
await threshold (round ∷ rest) successes attempts =
    let after_success = await threshold rest (suc successes) (suc attempts) in
    let after_failure = await threshold rest 0 (suc attempts) in
    if round.late
    then timed_out attempts
    else if round.completed
    then (if ltb (suc successes) threshold then after_success else converged (suc attempts))
    else if round.late_after
    then timed_out (suc attempts)
    else after_failure

unfoldable pub await_convergence : ℕ → List Round → Awaited
unfolding await
await_convergence threshold rounds = await threshold rounds 0 0
