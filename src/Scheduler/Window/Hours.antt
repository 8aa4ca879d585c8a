-- ===== src/Scheduler/Window/Hours.antt =====
-- The hours of the windows of control-plane/internal/scheduler/window.go.
use grid_token_util.Prelude.{ℕ, ◌≡◌, ◌≢◌, not, arith}
use grid_token_util.Prelude.Int.{pos}
use grid_token_util.Scheduler.Window.{hour_in}

-- The window from `s` to `e` and the window from `e` to `s` part the day between them: every hour is in
-- exactly one of the two, unless the two ends are equal.
pub hour_in-complement :
    (s e : ℕ) (h : ℕ)
    → s ≢ e
    → hour_in (pos s) (pos e) (pos h) ≡ not (hour_in (pos e) (pos s) (pos h))
unfolding hour_in
hour_in-complement s e h ne = ground arith
