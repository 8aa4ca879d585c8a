-- ===== src/Worker/Daemon/Approvals.antt =====
-- When the daemon of grid-worker/internal/daemon starts a task, and what becomes of manual approval.
use grid_token_util.Prelude.{
  ◌≡◌, refl, ◌⊎◌, String, true, false, Option, none, some, List, [], ◌∷◌, arith, str_eq,
}
use grid_token_util.Domain.{Time}
use grid_token_util.Clock.{Zones}
use grid_token_util.Worker.Lifecycle.{idle, executing, paused}
use grid_token_util.Worker.Policy.{PolicyConfig, evaluate}
use grid_token_util.Worker.Approval.{
  is_approved, approve, contains, lookup, consume_approval, forget,
}
use grid_token_util.Worker.Task.{TaskAssignment}
use grid_token_util.Worker.Daemon.{
  Daemon, engine_policy, Event, new, start_up, step, run, handle_approve, handle_pause,
  handle_resume,
}

-- Why a task was started: the engine's policy allows it, or the mode is manual and the task is approved.
abbrev pub IsCleared : Zones → Time → Daemon → TaskAssignment → Type 0
IsCleared z now d t =
    ((evaluate z now (engine_policy d) t.ai_agent).allow ≡ true)
    ⊎ ((str_eq d.policy.mode "manual" ≡ true) × (is_approved t.task_id d.approval ≡ true))

-- A task is started only by the main loop, from the buffer, in the state `idle`, and where the configuration that
-- the policy engine holds allows it, or the daemon's mode is manual and the task is approved; the daemon is then in the state `executing`.
pub step_starts :
    (z : Zones) (e : Event) (d : Daemon) {t : TaskAssignment}
    → (step z e d).1 ≡ some t
    → (now : Time) × (e ≡ Event.received now)
      × (d.channel ≡ some t)
      × (d.fsm ≡ idle)
      × IsCleared z now d t
      × ((step z e d).0.fsm ≡ executing)
unfolding step
step_starts z (Event.assigned t) d h = cc
step_starts z (Event.received now) d h =
    (now, refl, ground arith, ground arith, ground arith, ground arith)
step_starts z Event.finished d h = cc
step_starts z Event.pause_cmd d h = cc
step_starts z Event.resume_cmd d h = cc
step_starts z (Event.approve_cmd now id) d h = cc
step_starts z Event.revoke_cmd d h = cc
step_starts z (Event.reload cfg) d h = cc
step_starts z Event.cancelled d h = cc

-- No approval was ever requested, nor given.
abbrev NoApprovals : Daemon → Type 0
NoApprovals d = (d.approval.pending ≡ []) × (d.approval.approved ≡ [])

step-NoApprovals : (z : Zones) (e : Event) (d : Daemon) → NoApprovals d → NoApprovals (step z e d).0
unfolding step approve lookup is_approved consume_approval forget
step-NoApprovals z (Event.assigned t) d v = ground arith
step-NoApprovals z (Event.received now) d v = ground arith
step-NoApprovals z Event.finished d v = ground arith
step-NoApprovals z Event.pause_cmd d v = ground arith
step-NoApprovals z Event.resume_cmd d v = ground arith
step-NoApprovals z (Event.approve_cmd now none) d v = ground arith
step-NoApprovals z (Event.approve_cmd now (some id)) d v = ground arith
step-NoApprovals z Event.revoke_cmd d v = ground arith
step-NoApprovals z (Event.reload none) d v = ground arith
step-NoApprovals z (Event.reload (some cfg)) d v = ground arith
step-NoApprovals z Event.cancelled d v = ground arith

run-NoApprovals :
    (z : Zones) (es : List Event) (d : Daemon) → NoApprovals d → NoApprovals (run z es d)
unfolding run
run-NoApprovals z [] d v = v
run-NoApprovals z (e ∷ es) d v = run-NoApprovals z es (step z e d).0 (step-NoApprovals z e d v)

start_up-NoApprovals : (cfg : PolicyConfig) → NoApprovals (start_up (new cfg))
unfolding start_up new
start_up-NoApprovals cfg = ground arith

manual-denied :
    (z : Zones) (now : Time) (cfg : PolicyConfig) (agent : String)
    → str_eq cfg.mode "manual" ≡ true
    → (evaluate z now cfg agent).allow ≡ false
unfolding evaluate
manual-denied z now cfg agent h = ground arith

-- A daemon whose policy engine is in manual mode starts no task on the next event, whatever events it has seen before: no task is
-- ever approved.
pub manual_starts_nothing :
    (z : Zones) (cfg : PolicyConfig) (es : List Event) (e : Event)
    → str_eq (engine_policy (run z es (start_up (new cfg)))).mode "manual" ≡ true
    → (step z e (run z es (start_up (new cfg)))).1 ≡ none
manual_starts_nothing z cfg es e h = go (step z e (run z es (start_up (new cfg)))).1 refl
  where
    go : (r : Option TaskAssignment) → (step z e (run z es (start_up (new cfg)))).1 ≡ r → r ≡ none
    go none eq = refl
    go (some t) eq =
        let (now, _, _, _, cleared, _) = step_starts z e (run z es (start_up (new cfg))) eq in
        let v = run-NoApprovals z es (start_up (new cfg)) (start_up-NoApprovals cfg) in
        absurd (
          unfold is_approved contains in
          ground (
            arith,
            v,
            cleared,
            manual-denied z now (engine_policy (run z es (start_up (new cfg)))) t.ai_agent h,
          ))

-- Once a configuration has been reloaded, no further reload and no command changes what the engine evaluates: a reload to manual
-- mode does not stop the daemon from executing.
pub reload_unseen :
    (z : Zones) (e : Event) (d : Daemon) (cfg : PolicyConfig)
    → d.engine ≡ some cfg
    → engine_policy (step z e d).0 ≡ cfg
unfolding step
reload_unseen z (Event.assigned t) d cfg h = ground arith
reload_unseen z (Event.received now) d cfg h = ground arith
reload_unseen z Event.finished d cfg h = ground arith
reload_unseen z Event.pause_cmd d cfg h = ground arith
reload_unseen z Event.resume_cmd d cfg h = ground arith
reload_unseen z (Event.approve_cmd now none) d cfg h = ground arith
reload_unseen z (Event.approve_cmd now (some id)) d cfg h = ground arith
reload_unseen z Event.revoke_cmd d cfg h = ground arith
reload_unseen z (Event.reload none) d cfg h = ground arith
reload_unseen z (Event.reload (some new_cfg)) d cfg h = ground arith
reload_unseen z Event.cancelled d cfg h = ground arith

-- Whatever events the daemon has seen, no command `approve` succeeds.
pub approve_never_succeeds :
    (z : Zones) (cfg : PolicyConfig) (es : List Event) (now : Time) (payload : Option String)
    → (handle_approve now payload (run z es (start_up (new cfg)))).1 ≡ false
unfolding handle_approve approve lookup
approve_never_succeeds z cfg es now none = refl
approve_never_succeeds z cfg es now (some id) =
    ground (arith, run-NoApprovals z es (start_up (new cfg)) (start_up-NoApprovals cfg))

-- An idle daemon is paused by the command, and resumed by the one after it; its mode is then "auto", whatever
-- it was before.
pub resume-pause :
    (d : Daemon)
    → d.fsm ≡ idle
    → ((handle_pause d).1 ≡ true)
      × ((handle_pause d).0.fsm ≡ paused)
      × (handle_resume (handle_pause d).0
          ≡ (record d { policy = record (d.policy) { mode = "auto" } }, true))
unfolding handle_pause handle_resume
resume-pause d h = (ground arith, ground arith, ground arith)
