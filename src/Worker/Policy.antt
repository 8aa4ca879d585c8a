-- ===== src/Worker/Policy.antt =====
-- grid-worker/internal/policy/engine.go: whether a task may be executed now. The clock and the zones are
-- arguments.
pub mod Windows
use grid_token_util.Prelude.{
  String, Bool, true, false, not, ◌&&◌, ◌||◌, Option, none, some, List, [], ◌∷◌, if◌then◌else◌,
  str_eq,
}
use grid_token_util.Prelude.Int.{ℤ, pos}
use grid_token_util.Domain.{Time, TimeWindow}
use grid_token_util.Clock.{Zones, Local}
use grid_token_util.Scheduler.Window.{contains_int, is_nil, hour_in}

-- The part of the configuration that the engine reads. A mode is any text of the file.
pub record PolicyConfig : Type 0 where
  pub mode : String
  pub windows : List TimeWindow
  pub agents : List String

pub data Reason : Type 0 where
  paused_mode agent_not_permitted manual_mode outside_windows allowed : Reason

pub record Decision : Type 0 where
  pub allow : Bool
  pub reason : Reason

-- The worker's own `inWindow`: a zone that cannot be loaded closes the window.
unfoldable pub in_local_window : Local → TimeWindow → Bool
unfolding hour_in
in_local_window l w =
    if not (is_nil w.day_of_week) && not (contains_int w.day_of_week (pos l.weekday))
    then false
    else hour_in w.start_hour w.end_hour (pos l.hour)

unfoldable pub in_window : Zones → Time → TimeWindow → Bool
unfolding in_local_window
in_window z t w =
    if str_eq w.timezone ""
    then in_local_window (z.utc t) w
    else elim (z.load_location w.timezone) [ none ↦ false | some at ↦ in_local_window (at t) w ]

unfoldable pub in_some_window : Zones → Time → List TimeWindow → Bool
unfolding in_window
in_some_window z now [] = false
in_some_window z now (w ∷ ws) = in_window z now w || in_some_window z now ws

unfoldable pub is_in_window : Zones → Time → List TimeWindow → Bool
unfolding in_some_window
is_in_window z now [] = true
is_in_window z now (w ∷ ws) = in_some_window z now (w ∷ ws)

abbrev pub permits : List String → String → Bool
permits [] agent = false
permits (a ∷ rest) agent = str_eq a agent || permits rest agent

-- An empty list permits every agent.
abbrev pub is_permitted : List String → String → Bool
is_permitted [] agent = true
is_permitted (a ∷ rest) agent = permits (a ∷ rest) agent

abbrev has_windows : List TimeWindow → Bool
has_windows [] = false
has_windows (w ∷ ws) = true

abbrev deny : Reason → Decision
deny r = record { allow = false; reason = r }

unfoldable pub evaluate : Zones → Time → PolicyConfig → String → Decision
unfolding is_in_window
evaluate z now cfg agent =
    if str_eq cfg.mode "paused"
    then deny paused_mode
    else if not (is_permitted cfg.agents agent)
    then deny agent_not_permitted
    else if str_eq cfg.mode "manual"
    then deny manual_mode
    else if str_eq cfg.mode "auto"
        && has_windows cfg.windows
        && not (is_in_window z now cfg.windows)
    then deny outside_windows
    else record { allow = true; reason = allowed }
