-- ===== src/Worker/Reporter.antt =====
-- grid-worker/internal/reporter/reporter.go: the submission of an output with its retries.
pub mod Retries
use grid_token_util.Prelude.{
  ℕ, zero, suc, ◌+◌, Bool, true, false, Option, none, some, if◌then◌else◌, ltb,
}
use grid_token_util.Worker.Client.{ClientError, auth_error, server_error, plain_error}

pub data Outcome : Type 0 where
  submitted permanent cancelled exhausted : Outcome

-- The calls of `SubmitOutput` and the seconds waited between them, beside the outcome.
pub record Report : Type 0 where
  pub outcome : Outcome
  pub attempts : ℕ
  pub waited : ℕ

abbrev pub max_retries : ℕ
max_retries = 3

-- `backoffs`, in seconds.
abbrev pub backoff : ℕ → ℕ
backoff zero = 1
backoff (suc zero) = 2
backoff (suc (suc n)) = 4

-- `errors.As(err, &serverErr)`.
abbrev pub is_server_error : ClientError → Bool
is_server_error server_error = true
is_server_error _ = false

-- The loop with `left` attempts to make. `client` answers the attempts; `done` tells whether the context is
-- cancelled in the wait after one.
unfoldable pub attempt_from : (ℕ → Option ClientError) → (ℕ → Bool) → ℕ → ℕ → Report
attempt_from client done zero attempt = record { outcome = exhausted; attempts = 0; waited = 0 }
attempt_from client done (suc left) attempt =
    let rest = attempt_from client done left (suc attempt) in
    elim (client attempt) [
      | none ↦ record { outcome = submitted; attempts = 1; waited = 0 }
      | some e ↦
          if is_server_error e
          then if ltb (suc attempt) max_retries
            then if done attempt
              then record { outcome = cancelled; attempts = 1; waited = 0 }
              else record rest {
                attempts = suc rest.attempts;
                waited = backoff attempt + rest.waited;
              }
            else record rest { attempts = suc rest.attempts }
          else record { outcome = permanent; attempts = 1; waited = 0 }
    ]

unfoldable pub submit : (ℕ → Option ClientError) → (ℕ → Bool) → Report
unfolding attempt_from
submit client done = attempt_from client done max_retries 0
