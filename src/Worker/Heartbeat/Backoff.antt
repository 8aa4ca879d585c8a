-- ===== src/Worker/Heartbeat/Backoff.antt =====
-- The bounds of the backoff of grid-worker/internal/controlplane/heartbeat.go.
use grid_token_util.Prelude.{
  ℕ, zero, suc, ◌+◌, ◌==◌, ◌≤◌, ◌≡◌, refl, Option, none, some, List, [], ◌∷◌, if◌then◌else◌, leb,
  arith, Bool-cases, ap, ◌∙◌, inl, inr,
}
use grid_token_util.Worker.Client.{ClientError, auth_error, server_error, plain_error}
use grid_token_util.Worker.Heartbeat.{max_backoff, min, next_backoff, beat}

-- No run of ticks takes a backoff within the maximum beyond it.
pub beat-bounded :
    (es : List (Option ClientError)) (b c : ℕ)
    → b ≤ max_backoff
    → beat b es ≡ some c
    → c ≤ max_backoff
unfolding beat next_backoff
beat-bounded [] b c h k = ground arith
beat-bounded (none ∷ es) b c h k = beat-bounded es 0 c (ground arith) k
beat-bounded (some auth_error ∷ es) b c h k = cc
beat-bounded (some server_error ∷ es) b c h k = beat-bounded es _ c (ground arith) k
beat-bounded (some plain_error ∷ es) b c h k = beat-bounded es b c h k

unfoldable pub repeat : ℕ → Option ClientError → List (Option ClientError)
repeat zero e = []
repeat (suc n) e = e ∷ repeat n e

unfoldable pub doubled : ℕ → ℕ → ℕ
doubled zero b = b
doubled (suc n) b = doubled n (b + b)

doubled_grows : (n b : ℕ) → b ≤ doubled n b
unfolding doubled
doubled_grows zero b = omega arith
doubled_grows (suc n) b = omega (arith, doubled_grows n (b + b))

beat-capped : (n : ℕ) → beat max_backoff (repeat n (some server_error)) ≡ some max_backoff
unfolding beat next_backoff repeat
beat-capped zero = refl
beat-capped (suc n) = beat-capped n

beat_step :
    (b c : ℕ) (es : List (Option ClientError))
    → (if b == 0 then 5 else min (b + b) max_backoff) ≡ c
    → beat b (some server_error ∷ es) ≡ beat c es
unfolding beat next_backoff
beat_step b c es h = ap (λ x. beat x es) h

beat-doubled :
    (n b : ℕ)
    → 1 ≤ b
    → b ≤ max_backoff
    → beat b (repeat n (some server_error)) ≡ some (min (doubled n b) max_backoff)
unfolding beat repeat doubled
beat-doubled zero b p h = ground arith
beat-doubled (suc n) b p h = elim (Bool-cases (leb (b + b) max_backoff)) [
  | inl e ↦
      beat_step b (b + b) (repeat n (some server_error)) (ground arith)
      ∙ beat-doubled n (b + b) (omega arith) (ground arith)
  | inr e ↦
      beat_step b max_backoff (repeat n (some server_error)) (ground arith)
      ∙ beat-capped n
      ∙ ground (arith, doubled_grows n (b + b))
]

-- `n` server errors in a row after the first make the backoff five seconds doubled `n` times, and the maximum
-- from where that is more.
pub beat-server_errors :
    (n : ℕ) → beat 0 (repeat (suc n) (some server_error)) ≡ some (min (doubled n 5) max_backoff)
unfolding beat next_backoff repeat
beat-server_errors n = beat-doubled n 5 (omega arith) (omega arith)
