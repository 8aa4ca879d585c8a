-- ===== src/Worker/Daemon/Invariant.antt =====
-- What holds of the daemon of grid-worker/internal/daemon/daemon.go between two events.
use grid_token_util.Prelude.{
  ◌≡◌, ◌≢◌, ◌≤◌, ◌⊎◌, true, false, none, some, List, [], ◌∷◌, arith, length,
}
use grid_token_util.Clock.{Zones}
use grid_token_util.Worker.Lifecycle.{executing, shutdown}
use grid_token_util.Worker.Policy.{PolicyConfig}
use grid_token_util.Worker.Daemon.{Daemon, Event, new, start_up, step, run}

-- No task runs, or one does, and then the daemon is executing or shut down.
abbrev pub Inv : Daemon → Type 0
Inv d =
    ((d.running ≡ []) × (d.is_executing ≡ false) × (d.fsm ≢ executing))
    ⊎ ((length d.running ≡ 1)
        × (d.is_executing ≡ true)
        × ((d.fsm ≡ executing) ⊎ (d.fsm ≡ shutdown)))

start_up-Inv : (cfg : PolicyConfig) → Inv (start_up (new cfg))
unfolding start_up new
start_up-Inv cfg = ground arith

step-Inv : (z : Zones) (e : Event) (d : Daemon) → Inv d → Inv (step z e d).0
unfolding step
step-Inv z (Event.assigned t) d v = ground arith
step-Inv z (Event.received now) d v = ground arith
step-Inv z Event.finished d v = ground arith
step-Inv z Event.pause_cmd d v = ground arith
step-Inv z Event.resume_cmd d v = ground arith
step-Inv z (Event.approve_cmd now none) d v = ground arith
step-Inv z (Event.approve_cmd now (some id)) d v = ground arith
step-Inv z Event.revoke_cmd d v = ground arith
step-Inv z (Event.reload none) d v = ground arith
step-Inv z (Event.reload (some cfg)) d v = ground arith
step-Inv z Event.cancelled d v = ground arith

run-Inv : (z : Zones) (es : List Event) (d : Daemon) → Inv d → Inv (run z es d)
unfolding run
run-Inv z [] d v = v
run-Inv z (e ∷ es) d v = run-Inv z es (step z e d).0 (step-Inv z e d v)

-- Whatever the events, the daemon never executes two tasks at a time.
pub run_one_task :
    (z : Zones) (cfg : PolicyConfig) (es : List Event)
    → length (run z es (start_up (new cfg))).running ≤ 1
run_one_task z cfg es = ground (arith, run-Inv z es (start_up (new cfg)) (start_up-Inv cfg))
