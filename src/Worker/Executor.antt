-- ===== src/Worker/Executor.antt =====
-- grid-worker/internal/executor/executor.go: one execution as the list of what it does. What the workspace, the
-- scanner, the agent, the packer and the reporter answer is an argument.
pub mod Stages
use grid_token_util.Prelude.{
  String, Bool, true, false, not, ◌&&◌, ◌||◌, Option, none, some, List, [], ◌∷◌, ◌++◌,
  if◌then◌else◌, str_eq,
}
use grid_token_util.Domain.{TaskState, running, completed, failed}

-- The states that `updateStatus` is called with.
pub data Stage : Type 0 where
  preparing cloning scanning_pre executing scanning_post packing reporting done broken : Stage

-- What it reports to the control plane: the stages before the last are all "running" there.
abbrev pub api_state : Stage → TaskState
api_state done = completed
api_state broken = failed
api_state _ = running

pub data Action : Type 0 where
  update_status : Stage → Action
  create_workspace clone_repo scan_directory run_agent scan_patch pack submit cleanup : Action

-- A scan answers the severities of its findings, `none` where it fails.
pub record ExecEnv : Type 0 where
  pub has_repo : Bool
  pub scan_enabled : Bool
  pub cleanup_after : Bool
  pub creates : Bool
  pub clones : Bool
  pub pre_scan : Option (List String)
  pub has_adapter : Bool
  pub agent_runs : Bool
  pub has_stdout : Bool
  pub post_scan : Option (List String)
  pub packs : Bool
  pub submits : Bool

unfoldable pub has_critical : List String → Bool
has_critical [] = false
has_critical (s ∷ rest) = str_eq s "critical" || has_critical rest

-- A scan that fails does not stop the execution.
abbrev pub passes : Option (List String) → Bool
passes none = true
passes (some findings) = not (has_critical findings)

-- The actions, and whether the execution returns no error.
abbrev pub Run : Type 0
Run = List Action × Bool

-- A stage that goes on, or ends the execution with the status "failed".
unfoldable pub after : List Action → Bool → Run → Run
after actions true rest = (actions ++ rest.0, rest.1)
after actions false rest = (actions ++ update_status broken ∷ [], false)

unfoldable pub report_output : ExecEnv → Run
unfolding after
report_output e =
    after (update_status reporting ∷ submit ∷ []) e.submits (update_status done ∷ [], true)

unfoldable pub pack_output : ExecEnv → Run
unfolding after report_output
pack_output e = after (update_status packing ∷ pack ∷ []) e.packs (report_output e)

unfoldable pub scan_output : ExecEnv → Run
unfolding after pack_output has_critical
scan_output e =
    if e.scan_enabled && e.has_stdout
    then after (update_status scanning_post ∷ scan_patch ∷ []) (passes e.post_scan) (pack_output e)
    else pack_output e

unfoldable pub execute_agent : ExecEnv → Run
unfolding after scan_output
execute_agent e =
    after [] e.has_adapter
      (after (update_status executing ∷ run_agent ∷ []) e.agent_runs (scan_output e))

unfoldable pub scan_workspace : ExecEnv → Run
unfolding after execute_agent has_critical
scan_workspace e =
    if e.scan_enabled
    then after (update_status scanning_pre ∷ scan_directory ∷ []) (passes e.pre_scan)
        (execute_agent e)
    else execute_agent e

unfoldable pub clone_into : ExecEnv → Run
unfolding after scan_workspace
clone_into e =
    if e.has_repo
    then after (update_status cloning ∷ clone_repo ∷ []) e.clones (scan_workspace e)
    else scan_workspace e

abbrev and_cleanup : Bool → Run → Run
and_cleanup b (actions, fine) = (if b then actions ++ cleanup ∷ [] else actions, fine)

-- `Execute`. The workspace is cleaned up at the end, on every path on which it was created.
unfoldable pub execute : ExecEnv → Run
unfolding after clone_into
execute e =
    after (update_status preparing ∷ create_workspace ∷ []) e.creates
      (and_cleanup e.cleanup_after (clone_into e))
