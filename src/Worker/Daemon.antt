-- ===== src/Worker/Daemon.antt =====
-- grid-worker/internal/daemon/daemon.go and handlers.go: the daemon as a machine of events. The main
-- loop handles one task at a time; the goroutine that executes a task ends by the event `finished`.
pub mod Refinement
pub mod Invariant
pub mod Approvals
use grid_token_util.Prelude.{
  String, Bool, true, false, not, ◌&&◌, Option, none, some, List, [], ◌∷◌, ◌++◌, if◌then◌else◌,
  str_eq,
}
use grid_token_util.Domain.{Time}
use grid_token_util.Clock.{Zones}
use grid_token_util.Worker.Lifecycle.{
  State, init, preflight, idle, executing, paused, shutdown, same_state, transition,
}
use grid_token_util.Worker.Approval.{ApprovalStore, approve, is_approved, consume_approval}
use grid_token_util.Worker.Approval
use grid_token_util.Worker.Policy.{PolicyConfig, evaluate}
use grid_token_util.Worker.Task.{TaskAssignment}

-- `policy` is the daemon's configuration `d.cfg`. The engine keeps the configuration that it was made with: it is the daemon's own,
-- `none`, until a reload gives the daemon another one. `running` is the tasks whose goroutines have not ended; `channel` is the buffer of one task.
pub record Daemon : Type 0 where
  pub fsm : State
  pub policy : PolicyConfig
  pub engine : Option PolicyConfig
  pub approval : ApprovalStore
  pub is_executing : Bool
  pub channel : Option TaskAssignment
  pub running : List TaskAssignment

-- The configuration that `Evaluate` reads.
abbrev pub engine_policy : Daemon → PolicyConfig
engine_policy d = elim d.engine [ none ↦ d.policy | some cfg ↦ cfg ]

-- `New`, and the start of `run` up to the main loop, where all preflight checks pass.
unfoldable pub new : PolicyConfig → Daemon
unfolding Approval.new
new cfg = record {
  fsm = init;
  policy = cfg;
  engine = none;
  approval = Approval.new;
  is_executing = false;
  channel = none;
  running = [];
}

-- A transition whose error is only logged.
abbrev pub move : State → State → Daemon → Daemon
move from to d = elim (transition d.fsm from to) [ none ↦ d | some s ↦ record d { fsm = s } ]

unfoldable pub start_up : Daemon → Daemon
unfolding transition
start_up d = move preflight idle (move init preflight d)

-- A state and the task that was started in it.
abbrev pub Started : Type 0
Started = Daemon × Option TaskAssignment

unfoldable pub start_task : TaskAssignment → Daemon → Started
unfolding transition
start_task t d = elim (transition d.fsm idle executing) [
  | none ↦ (d, none)
  | some s ↦ (record d { fsm = s; is_executing = true; running = t ∷ d.running }, some t)
]

unfoldable pub handle_task : Zones → Time → TaskAssignment → Daemon → Started
unfolding start_task
handle_task z now t d =
    if not (same_state d.fsm idle)
    then (d, none)
    else if (evaluate z now (engine_policy d) t.ai_agent).allow
    then start_task t d
    else if str_eq d.policy.mode "manual" && is_approved t.task_id d.approval
    then start_task t (record d { approval = consume_approval t.task_id d.approval })
    else (d, none)

-- The deferred part of the goroutine.
unfoldable pub finish_task : Daemon → Daemon
unfolding transition
finish_task d = elim d.running [
  | [] ↦ d
  | t ∷ rest ↦ move executing idle (record d { is_executing = false; running = rest })
]

unfoldable pub on_task_assigned : TaskAssignment → Daemon → Daemon
on_task_assigned t d = elim d.channel [ none ↦ record d { channel = some t } | some u ↦ d ]

unfoldable pub receive : Zones → Time → Daemon → Started
unfolding handle_task
receive z now d = elim d.channel [
  | none ↦ (d, none)
  | some t ↦ handle_task z now t (record d { channel = none })
]

-- A command of the control socket: the new state, and whether it answers without an error.
abbrev pub Command : Type 0
Command = Daemon × Bool

abbrev with_mode : String → Daemon → Daemon
with_mode m d = record d { policy = record (d.policy) { mode = m } }

unfoldable pub handle_pause : Daemon → Command
unfolding transition
handle_pause d =
    if not (same_state d.fsm idle) then (d, false) else elim (transition d.fsm idle paused) [
      | none ↦ (d, false)
      | some s ↦ (with_mode "paused" (record d { fsm = s }), true)
    ]

unfoldable pub handle_resume : Daemon → Command
unfolding transition
handle_resume d =
    if not (same_state d.fsm paused) then (d, false) else elim (transition d.fsm paused idle) [
      | none ↦ (d, false)
      | some s ↦ (with_mode "auto" (record d { fsm = s }), true)
    ]

-- The payload is `none` where the JSON decoder refuses it.
unfoldable pub handle_approve : Time → Option String → Daemon → Command
handle_approve now none d = (d, false)
handle_approve now (some id) d =
    if str_eq id ""
    then (d, false)
    else let (s, done) = approve now id d.approval in (record d { approval = s }, done)

unfoldable pub handle_revoke : Daemon → Command
handle_revoke d = (d, true)

-- A configuration that cannot be loaded changes nothing; one that is loaded becomes the daemon's, and the engine keeps its own.
unfoldable pub on_config_reload : Option PolicyConfig → Daemon → Daemon
on_config_reload none d = d
on_config_reload (some cfg) d = record d { policy = cfg; engine = some (engine_policy d) }

unfoldable pub stop : Daemon → Daemon
unfolding transition
stop d = if not (same_state d.fsm shutdown) then move d.fsm shutdown d else d

pub data Event : Type 0 where
  assigned : TaskAssignment → Event
  received : Time → Event
  finished : Event
  pause_cmd : Event
  resume_cmd : Event
  approve_cmd : Time → Option String → Event
  revoke_cmd : Event
  reload : Option PolicyConfig → Event
  cancelled : Event

-- One event, with the task that it starts.
unfoldable pub step : Zones → Event → Daemon → Started
unfolding receive finish_task on_task_assigned handle_pause handle_resume handle_approve
    handle_revoke on_config_reload stop
step z (assigned t) d = (on_task_assigned t d, none)
step z (received now) d = receive z now d
step z finished d = (finish_task d, none)
step z pause_cmd d = ((handle_pause d).0, none)
step z resume_cmd d = ((handle_resume d).0, none)
step z (approve_cmd now id) d = ((handle_approve now id d).0, none)
step z revoke_cmd d = ((handle_revoke d).0, none)
step z (reload cfg) d = (on_config_reload cfg d, none)
step z cancelled d = (stop d, none)

unfoldable pub run : Zones → List Event → Daemon → Daemon
run z [] d = d
run z (e ∷ es) d = run z es (step z e d).0
