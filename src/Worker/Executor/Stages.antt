-- ===== src/Worker/Executor/Stages.antt =====
-- What grid-worker/internal/executor/executor.go reports and when it runs the agent and submits.
use grid_token_util.Prelude.{
  ◌≡◌, ◌↔◌, Bool, true, false, not, ◌&&◌, ◌||◌, Option, none, some, List, [], ◌∷◌, if◌then◌else◌,
  arith,
}
use grid_token_util.Api.Tasks.{is_worker_target}
use grid_token_util.Worker.Executor.{
  Stage, done, broken, Action, update_status, submit, api_state, ExecEnv, passes, after,
  report_output, pack_output, scan_output, execute_agent, scan_workspace, clone_into, execute,
}

-- The last status of a run.
unfoldable pub last_status : List Action → Option Stage
last_status [] = none
last_status (update_status s ∷ rest) =
    let later = last_status rest in elim later [ none ↦ some s | some t ↦ some t ]
last_status (a ∷ rest) = last_status rest

unfoldable pub does_submit : List Action → Bool
does_submit [] = false
does_submit (submit ∷ rest) = true
does_submit (a ∷ rest) = does_submit rest

-- An execution ends with one last status, "completed" where it returns no error and "failed" where it does.
pub execute-last_status :
    (e : ExecEnv) → last_status (execute e).0 ≡ some (if (execute e).1 then done else broken)
unfolding execute clone_into scan_workspace execute_agent scan_output pack_output report_output
    after last_status
execute-last_status e = ground arith

-- Every status that an execution sends is one that the control plane takes from a worker.
pub api_state-target : (s : Stage) → is_worker_target (api_state s) ≡ true
api_state-target s = ground arith

-- An output is submitted exactly when every stage before went through.
pub execute-submits :
    (e : ExecEnv)
    → (does_submit (execute e).0 ≡ true) ↔ (
        (e.creates ≡ true)
        × ((not e.has_repo || e.clones) ≡ true)
        × ((not e.scan_enabled || passes e.pre_scan) ≡ true)
        × (e.has_adapter ≡ true)
        × (e.agent_runs ≡ true)
        × ((not (e.scan_enabled && e.has_stdout) || passes e.post_scan) ≡ true)
        × (e.packs ≡ true))
unfolding execute clone_into scan_workspace execute_agent scan_output pack_output report_output
    after does_submit
execute-submits e = ground arith
