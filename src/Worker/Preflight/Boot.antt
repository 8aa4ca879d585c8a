-- ===== src/Worker/Preflight/Boot.antt =====
-- grid-worker/internal/daemon/daemon.go, the start of `run`: the checks come before the daemon is idle.
use grid_token_util.Prelude.{
  ◌≡◌, refl, Option, none, some, if◌then◌else◌, Bool-cases, inl, inr, ◌⊎◌,
}
use grid_token_util.Worker.Lifecycle.{idle}
use grid_token_util.Worker.Policy.{PolicyConfig}
use grid_token_util.Worker.Daemon.{Daemon, new, start_up}
use grid_token_util.Worker.Preflight.{System, Config, run_all, has_failures}
use grid_token_util.Worker.Preflight.Verdict.{IsReady, has_failures-IsReady}

-- `log.Fatal` on a failed check ends the process: `none`.
unfoldable pub boot : System → Config → Daemon → Option Daemon
boot sys cfg d = if has_failures (run_all sys cfg).1 then none else some (start_up d)

-- A new daemon either is ready and becomes idle, or its process ends and no state of it is left: it never waits for a task
-- with a check that failed.
pub boot-IsReady :
    (sys : System) (cfg : Config) (policy : PolicyConfig)
    → (IsReady sys cfg × (boot sys cfg (new policy) ≡ some (record (new policy) { fsm = idle })))
      ⊎ ((¬ IsReady sys cfg) × (boot sys cfg (new policy) ≡ none))
unfolding boot start_up new
boot-IsReady sys cfg policy = elim (Bool-cases (has_failures (run_all sys cfg).1)) [
  | inl e ↦ inr (λ r. cc (e, (has_failures-IsReady sys cfg).1 r), rw e refl)
  | inr e ↦ inl ((has_failures-IsReady sys cfg).0 e, rw e refl)
]
