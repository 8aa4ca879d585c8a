-- ===== src/Worker/Reporter/Retries.antt =====
-- How often grid-worker/internal/reporter/reporter.go submits an output.
use grid_token_util.Prelude.{ℕ, ◌≤◌, ◌≡◌, ◌↔◌, Bool, false, Option, some, arith}
use grid_token_util.Worker.Client.{ClientError, server_error, Exchange, submit_output}
use grid_token_util.Worker.Reporter.{exhausted, attempt_from, submit}

-- Whatever the client answers, a submission calls `SubmitOutput` once to three times and waits three seconds
-- at most between the calls: the last backoff, four seconds, is never waited.
pub submit-bounded :
    (client : ℕ → Option ClientError) (done : ℕ → Bool)
    → (1 ≤ (submit client done).attempts)
      × ((submit client done).attempts ≤ 3)
      × ((submit client done).waited ≤ 3)
unfolding submit attempt_from
submit-bounded client done = ground arith

-- The retries run out exactly when three calls end with a server error and neither wait is cancelled.
pub submit-exhausted :
    (client : ℕ → Option ClientError) (done : ℕ → Bool)
    → ((submit client done).outcome ≡ exhausted) ↔ (
        (client 0 ≡ some server_error)
        × (client 1 ≡ some server_error)
        × (client 2 ≡ some server_error)
        × (done 0 ≡ false)
        × (done 1 ≡ false))
unfolding submit attempt_from
submit-exhausted client done = ground arith

-- With the client of the control plane a submission makes one call, whatever the answers are: `SubmitOutput`
-- returns no `ServerError`, so that no failure is retried.
pub submit-once :
    (exchange : ℕ → Exchange) (done : ℕ → Bool)
    → (submit (λ i. submit_output (exchange i)) done).attempts ≡ 1
unfolding submit attempt_from submit_output
submit-once exchange done = ground arith
