-- ===== src/Worker/Lifecycle.antt =====
-- grid-worker/internal/daemon/lifecycle.go: the state machine of the daemon.
pub mod Reachable
use grid_token_util.Prelude.{
  Bool, true, false, ◌||◌, List, [], ◌∷◌, Option, none, some, if◌then◌else◌,
}

pub data State : Type 0 where
  init preflight idle executing paused shutdown : State

abbrev pub same_state : State → State → Bool
same_state init init = true
same_state preflight preflight = true
same_state idle idle = true
same_state executing executing = true
same_state paused paused = true
same_state shutdown shutdown = true
same_state _ _ = false

unfoldable pub allowed_transitions : State → List State
allowed_transitions init = preflight ∷ []
allowed_transitions preflight = idle ∷ shutdown ∷ []
allowed_transitions idle = executing ∷ paused ∷ shutdown ∷ []
allowed_transitions executing = idle ∷ shutdown ∷ []
allowed_transitions paused = idle ∷ shutdown ∷ []
allowed_transitions shutdown = []

abbrev pub is_listed : State → List State → Bool
is_listed s [] = false
is_listed s (t ∷ ts) = same_state t s || is_listed s ts

-- `Transition(from, to)` on the current state: the new state, or `none` for the error.
unfoldable pub transition : State → State → State → Option State
unfolding allowed_transitions
transition current from to =
    if same_state current from
    then if same_state to shutdown
      then some to
      else if is_listed to (allowed_transitions from)
      then some to
      else none
    else none
