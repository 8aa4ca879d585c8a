-- ===== src/Samples/Machines.antt =====
-- Runs of the worker's daemon and of the loops beside it.
use grid_token_util.Prelude.{
  ◌≡◌, ◌≤◌, refl, ◌↔◌, ◌||◌, String, true, not, ◌&&◌, none, some, List, [], ◌∷◌, length,
}
use grid_token_util.Prelude.Int.{pos}
use grid_token_util.Domain.{Time}
use grid_token_util.Worker.Lifecycle.{init, idle, executing}
use grid_token_util.Worker.Lifecycle.Reachable.{Run}
use grid_token_util.Worker.Policy.{PolicyConfig, evaluate}
use grid_token_util.Worker.Control.{Codec, handle_conn}
use grid_token_util.Worker.Commands.{Answer, control_handlers}
use grid_token_util.Worker.Commands.Reach.{Reaches, handle_conn-Reaches}
use grid_token_util.Worker.Task.{TaskAssignment}
use grid_token_util.Worker.Daemon.{Daemon, Event, new, start_up, step, run, on_task_assigned}
use grid_token_util.Worker.Daemon.Invariant.{run_one_task}
use grid_token_util.Worker.Daemon.Refinement.{run-Run}
use grid_token_util.Worker.Daemon.Approvals.{step_starts, manual_starts_nothing, IsCleared}
use grid_token_util.Worker.Executor.{ExecEnv, execute, passes}
use grid_token_util.Worker.Executor.Stages.{does_submit, execute-submits}
use grid_token_util.Samples.Data.{sample_zones}

abbrev config : String → PolicyConfig
config mode = record { mode = mode; windows = []; agents = [] }

abbrev job : TaskAssignment
job = record {
  task_id = "a";
  title = "t";
  description = "d";
  task_type = "review";
  ai_agent = "claude";
  options = [];
  repo_url = "";
  branch = "";
  timeout_sec = pos 60;
}

abbrev events : List Event
events = Event.assigned job ∷ Event.received 5 ∷ Event.assigned job ∷ []

run_one_task_example : length (run sample_zones events (start_up (new (config "auto")))).running ≤ 1
run_one_task_example = run_one_task sample_zones (config "auto") events

run-Run_example : Run init (run sample_zones events (start_up (new (config "auto")))).fsm
run-Run_example = run-Run sample_zones (config "auto") events

-- A daemon with the job in its buffer.
abbrev loaded : Daemon
loaded = on_task_assigned job (start_up (new (config "auto")))

step_starts_example :
    (now : Time) × (Event.received 5 ≡ Event.received now)
    × (loaded.channel ≡ some job)
    × (loaded.fsm ≡ idle)
    × IsCleared sample_zones now loaded job
    × ((step sample_zones (Event.received 5) loaded).0.fsm ≡ executing)
unfolding step start_up new evaluate
step_starts_example = step_starts sample_zones (Event.received 5) loaded refl

manual_starts_nothing_example :
    (step sample_zones
      (Event.received 5)
      (run sample_zones (Event.assigned job ∷ []) (start_up (new (config "manual"))))).1
    ≡ none
unfolding run step start_up new
manual_starts_nothing_example =
    manual_starts_nothing sample_zones (config "manual") (Event.assigned job ∷ [])
      (Event.received 5) refl

abbrev exec_env : ExecEnv
exec_env = record {
  has_repo = true;
  scan_enabled = true;
  cleanup_after = true;
  creates = true;
  clones = true;
  pre_scan = some ("high" ∷ []);
  has_adapter = true;
  agent_runs = true;
  has_stdout = true;
  post_scan = some [];
  packs = true;
  submits = true;
}

execute-submits_example : (does_submit (execute exec_env).0 ≡ true) ↔ (
    (true ≡ true)
    × (true ≡ true)
    × ((not true || passes exec_env.pre_scan) ≡ true)
    × (true ≡ true)
    × (true ≡ true)
    × ((not (true && true) || passes exec_env.post_scan) ≡ true)
    × (true ≡ true))
execute-submits_example = execute-submits exec_env

-- A codec in which each message is the command "pause", and no response has a body.
abbrev pause_codec : Codec Answer
pause_codec = record {
  marshal_command = λ c. some (1 ∷ []);
  unmarshal_command = λ bytes. some (record { kind = "pause"; payload = [] });
  marshal_value = λ v. some (1 ∷ []);
  marshal_response = λ r. some (1 ∷ []);
  unmarshal_response = λ bytes. none;
}

handle_conn-Reaches_example :
    Reaches sample_zones
      (λ s. s)
      (λ bytes. none)
      5
      pause_codec
      loaded
      (handle_conn pause_codec
        (control_handlers (λ s. s) (λ bytes. none) 5)
        (0 ∷ 0 ∷ 0 ∷ 1 ∷ 7 ∷ [])
        loaded).state
handle_conn-Reaches_example =
    handle_conn-Reaches sample_zones (λ s. s) (λ bytes. none) 5 pause_codec (0 ∷ 0 ∷ 0 ∷ 1 ∷ 7 ∷ [])
      loaded
