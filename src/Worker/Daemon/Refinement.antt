-- ===== src/Worker/Daemon/Refinement.antt =====
-- The daemon of grid-worker/internal/daemon/daemon.go follows the diagram of its states.
use grid_token_util.Prelude.{◌≡◌, sym, subst, ◌⊎◌, inl, inr, none, some, List, [], ◌∷◌, arith}
use grid_token_util.Clock.{Zones}
use grid_token_util.Worker.Lifecycle.{State, init, transition}
use grid_token_util.Worker.Lifecycle.Reachable.{
  Edge, begin, pass, start, finish, pause, resume, stop as stops, Run, here, then_,
}
use grid_token_util.Worker.Policy.{PolicyConfig}
use grid_token_util.Worker.Daemon.{Daemon, Event, new, start_up, step, run}

Moves : State → State → Type 0
Moves s t = (t ≡ s) ⊎ Edge s t

step-Moves : (z : Zones) (e : Event) (d : Daemon) → Moves d.fsm (step z e d).0.fsm
unfolding step Moves
step-Moves z (Event.assigned t) d = inl (ground arith)
step-Moves z (Event.received now) d = grind (arith, start)
step-Moves z Event.finished d = grind (arith, finish)
step-Moves z Event.pause_cmd d = grind (arith, pause)
step-Moves z Event.resume_cmd d = grind (arith, resume)
step-Moves z (Event.approve_cmd now none) d = inl (ground arith)
step-Moves z (Event.approve_cmd now (some id)) d = inl (ground arith)
step-Moves z Event.revoke_cmd d = inl (ground arith)
step-Moves z (Event.reload none) d = inl (ground arith)
step-Moves z (Event.reload (some cfg)) d = inl (ground arith)
step-Moves z Event.cancelled d = grind (arith, stops)

run-Moves :
    (z : Zones) (es : List Event) (d : Daemon) {s : State} → Run s d.fsm → Run s (run z es d).fsm
unfolding run Moves
run-Moves z [] d r = r
run-Moves z (e ∷ es) d {s} r =
    run-Moves z es (step z e d).0 (elim (step-Moves z e d) as (λ _. Run s (step z e d).0.fsm) [
      | inl p ↦ subst (λ t. Run s t) (sym p) r
      | inr m ↦ then_ r m
    ])

start_up-Run : (cfg : PolicyConfig) → Run init (start_up (new cfg)).fsm
unfolding start_up new transition
start_up-Run cfg = then_ (then_ here begin) pass

-- Whatever the events, the daemon gets from `init` to its state along the edges of the diagram.
pub run-Run :
    (z : Zones) (cfg : PolicyConfig) (es : List Event)
    → Run init (run z es (start_up (new cfg))).fsm
run-Run z cfg es = run-Moves z es (start_up (new cfg)) (start_up-Run cfg)
