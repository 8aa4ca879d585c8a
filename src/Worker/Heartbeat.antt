-- ===== src/Worker/Heartbeat.antt =====
-- grid-worker/internal/controlplane/heartbeat.go: the loop's backoff, in seconds, over the results of its ticks.
pub mod Backoff
use grid_token_util.Prelude.{
  ℕ, zero, suc, ◌+◌, ◌==◌, Bool, true, false, Option, none, some, List, [], ◌∷◌, if◌then◌else◌, leb,
}
use grid_token_util.Worker.Client.{ClientError, auth_error, server_error, plain_error}

-- Five minutes.
abbrev pub max_backoff : ℕ
max_backoff = 300

abbrev pub min : ℕ → ℕ → ℕ
min a b = if leb a b then a else b

-- What one tick leaves as backoff; `none` where the loop returns.
unfoldable pub next_backoff : ℕ → Option ClientError → Option ℕ
next_backoff b none = some 0
next_backoff b (some auth_error) = none
next_backoff b (some server_error) = some (if b == 0 then 5 else min (b + b) max_backoff)
next_backoff b (some plain_error) = some b

-- The ticks of the loop one after the other. The heartbeat before the loop is sent for its effect only.
unfoldable pub beat : ℕ → List (Option ClientError) → Option ℕ
unfolding next_backoff
beat b [] = some b
beat b (e ∷ es) = elim (next_backoff b e) [ none ↦ none | some c ↦ beat c es ]
