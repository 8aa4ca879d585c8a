-- ===== src/Worker/Lifecycle/Reachable.antt =====
-- The runs of the state machine of grid-worker/internal/daemon/lifecycle.go.
use grid_token_util.Prelude.{◌≡◌, refl, subst, sym, ap, ◌∙◌, ◌↔◌, some, arith}
use grid_token_util.Worker.Lifecycle.{
  State, init, preflight, idle, executing, paused, shutdown, transition,
}

-- The diagram of the daemon's life.
pub data Edge : State → State → Type 0 where
  begin : Edge init preflight
  pass : Edge preflight idle
  start : Edge idle executing
  finish : Edge executing idle
  pause : Edge idle paused
  resume : Edge paused idle
  stop : {s : State} → Edge s shutdown

pub data Run : State → State → Type 0 where
  here : {s : State} → Run s s
  then_ : {s t u : State} → Run s t → Edge t u → Run s u

pub Edge-transition : {s t : State} → Edge s t → transition s s t ≡ some t
unfolding transition
Edge-transition begin = refl
Edge-transition pass = refl
Edge-transition start = refl
Edge-transition finish = refl
Edge-transition pause = refl
Edge-transition resume = refl
Edge-transition {s = init} stop = refl
Edge-transition {s = preflight} stop = refl
Edge-transition {s = idle} stop = refl
Edge-transition {s = executing} stop = refl
Edge-transition {s = paused} stop = refl
Edge-transition {s = shutdown} stop = refl

pub transition-Edge :
    (c from to : State) {r : State}
    → transition c from to ≡ some r
    → (c ≡ from) × (r ≡ to) × Edge c to
unfolding transition
transition-Edge c from to h = grind (arith, begin, pass, start, finish, pause, resume, stop)

-- The state machine makes a transition exactly along an edge of the diagram that starts in the current state,
-- and ends in the edge's end.
pub transition_iff :
    (c from to : State) {r : State}
    → (transition c from to ≡ some r) ↔ ((c ≡ from) × (r ≡ to) × Edge c to)
transition_iff c from to {r} = (
  transition-Edge c from to,
  λ (p, q, e). subst (λ f. transition c f to ≡ some r) p (Edge-transition e ∙ ap some (sym q)),
)

-- Nothing leads out of `shutdown`.
pub Run-shutdown : {s t : State} → Run s t → s ≡ shutdown → t ≡ shutdown
Run-shutdown here h = h
Run-shutdown (then_ r e) h = Edge-shutdown e (Run-shutdown r h)
  where
    Edge-shutdown : {s t : State} → Edge s t → s ≡ shutdown → t ≡ shutdown
    Edge-shutdown begin h = cc
    Edge-shutdown pass h = cc
    Edge-shutdown start h = cc
    Edge-shutdown finish h = cc
    Edge-shutdown pause h = cc
    Edge-shutdown resume h = cc
    Edge-shutdown stop h = refl
