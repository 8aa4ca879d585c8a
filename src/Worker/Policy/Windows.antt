-- ===== src/Worker/Policy/Windows.antt =====
-- The windows of the worker (grid-worker/internal/policy/engine.go) beside those of the control plane
-- (control-plane/internal/scheduler/window.go).
use grid_token_util.Prelude.{
  ◌≡◌, refl, Bool, true, false, ◌||◌, none, some, List, [], ◌∷◌, str_eq, arith, All,
}
use grid_token_util.Domain.{Time, TimeWindow}
use grid_token_util.Clock.{Zones}
use grid_token_util.Scheduler.Window
use grid_token_util.Worker.Policy.{in_window, in_some_window, is_in_window}

-- The zone of the window is UTC, or can be loaded.
abbrev pub is_loadable : Zones → TimeWindow → Bool
is_loadable z w =
    str_eq w.timezone "" || elim (z.load_location w.timezone) [ none ↦ false | some at ↦ true ]

in_window-eq :
    (z : Zones) (t : Time) (w : TimeWindow)
    → is_loadable z w ≡ true
    → in_window z t w ≡ Window.in_window z t w
unfolding in_window Window.in_window
in_window-eq z t w h = ground arith

in_some_window-eq :
    (z : Zones) (t : Time) (ws : List TimeWindow)
    → All (λ w. is_loadable z w ≡ true) ws
    → in_some_window z t ws ≡ Window.in_some_window z t ws
unfolding in_some_window Window.in_some_window
in_some_window-eq z t [] all = refl
in_some_window-eq z t (w ∷ ws) all =
    rw (in_window-eq z t w all.0) (rw (in_some_window-eq z t ws all.1))

-- The worker and the control plane agree on whether it is time, where all zones can be loaded.
pub is_in_window-agree :
    (z : Zones) (t : Time) (ws : List TimeWindow)
    → All (λ w. is_loadable z w ≡ true) ws
    → is_in_window z t ws ≡ Window.is_in_window z t (record { execution_windows = ws })
unfolding is_in_window Window.is_in_window
is_in_window-agree z t [] all = refl
is_in_window-agree z t (w ∷ ws) all = in_some_window-eq z t (w ∷ ws) all
