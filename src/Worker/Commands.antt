-- ===== src/Worker/Commands.antt =====
-- grid-worker/internal/daemon/handlers.go and registerControlHandlers of daemon.go: the daemon's commands as handlers of the control
-- socket. The decoder of the payload of "approve", the quotation of %q and the clock are arguments; the worker's identifier is not
-- kept here, nor is the text of the decoder's error.
pub mod Reach
use Prim.Native.String.{◌++◌ as str_append}
use grid_token_util.Prelude.{
  String, Bool, true, false, Option, none, some, List, [], ◌∷◌, if◌then◌else◌, str_eq,
}
use grid_token_util.Domain.{Time}
use grid_token_util.Worker.Lifecycle.{State, init, preflight, idle, executing, paused, shutdown}
use grid_token_util.Worker.Daemon.{
  Daemon, handle_pause, handle_resume, handle_approve, handle_revoke,
}
use grid_token_util.Worker.Control.{
  Bytes, Outcome, failed, value, CommandHandler, Handlers, register,
}

-- `State.String`.
unfoldable pub state_text : State → String
state_text init = "INIT"
state_text preflight = "PREFLIGHT"
state_text idle = "IDLE"
state_text executing = "EXECUTING"
state_text paused = "PAUSED"
state_text shutdown = "SHUTDOWN"

-- What the handlers return.
pub data Answer : Type 0 where
  status : String → String → Answer
  state : String → Answer
  approved : String → Answer

unfoldable pub status_cmd : CommandHandler Daemon Answer
status_cmd payload d = (d, value (status (state_text d.fsm) d.policy.mode))

abbrev only_from : String → State → Outcome Answer
only_from words s = failed (str_append words (str_append (state_text s) ")"))

unfoldable pub pause_cmd : CommandHandler Daemon Answer
pause_cmd payload d =
    let r = handle_pause d in
    (
      r.0,
      if r.1
          then value (state "PAUSED")
          else only_from "can only pause from IDLE state (current: " d.fsm,
    )

unfoldable pub resume_cmd : CommandHandler Daemon Answer
resume_cmd payload d =
    let r = handle_resume d in
    (
      r.0,
      if r.1
          then value (state "IDLE")
          else only_from "can only resume from PAUSED state (current: " d.fsm,
    )

abbrev unknown_task : (String → String) → String → Outcome Answer
unknown_task quote id =
    if str_eq id ""
    then failed "task_id is required"
    else failed (str_append "task " (str_append (quote id) " not found in pending approvals"))

unfoldable pub approve_cmd :
    (String → String) → (Bytes → Option String) → Time → CommandHandler Daemon Answer
approve_cmd quote decode now payload d =
    let r = handle_approve now (decode payload) d in
    (
      r.0,
      elim (decode payload) [
        | none ↦ failed "invalid approve payload"
        | some id ↦ if r.1 then value (approved id) else unknown_task quote id
      ],
    )

unfoldable pub revoke_cmd : CommandHandler Daemon Answer
revoke_cmd payload d = ((handle_revoke d).0, value (state "revoking"))

-- `registerControlHandlers`.
unfoldable pub control_handlers :
    (String → String) → (Bytes → Option String) → Time → Handlers Daemon Answer
unfolding status_cmd pause_cmd resume_cmd approve_cmd revoke_cmd register
control_handlers quote decode now = register "revoke" revoke_cmd (
    register "approve" (approve_cmd quote decode now)
      (register "resume" resume_cmd (register "pause" pause_cmd (register "status" status_cmd []))))
