-- ===== src/Scheduler/Window.antt =====
-- control-plane/internal/scheduler/window.go: the execution windows of an organisation. The clock and
-- the zones are arguments.
pub mod Hours
use grid_token_util.Prelude.{
  Bool, true, false, not, ◌&&◌, ◌||◌, Option, none, some, List, [], ◌∷◌, if◌then◌else◌, str_eq,
}
use grid_token_util.Prelude.Int.{ℤ, pos, leb_ℤ, ltb_ℤ}
use grid_token_util.Domain.{Time, TimeWindow, OrgPolicy}
use grid_token_util.Clock.{Zones, Local}

abbrev pub contains_int : List ℤ → ℤ → Bool
contains_int [] val = false
contains_int (v ∷ rest) val = (leb_ℤ v val && leb_ℤ val v) || contains_int rest val

abbrev pub is_nil : List ℤ → Bool
is_nil [] = true
is_nil (d ∷ ds) = false

-- The test on the hours, which wraps at midnight where the start is the later one.
unfoldable pub hour_in : ℤ → ℤ → ℤ → Bool
hour_in start end_ hour =
    if leb_ℤ start end_
    then leb_ℤ start hour && ltb_ℤ hour end_
    else leb_ℤ start hour || ltb_ℤ hour end_

-- What is left of `inWindow` once the zone is known.
unfoldable pub local_in_window : Local → TimeWindow → Bool
unfolding hour_in
local_in_window l w =
    if not (is_nil w.day_of_week) && not (contains_int w.day_of_week (pos l.weekday))
    then false
    else hour_in w.start_hour w.end_hour (pos l.hour)

-- A zone that cannot be loaded is read as UTC.
unfoldable pub in_window : Zones → Time → TimeWindow → Bool
unfolding local_in_window
in_window z t w =
    if str_eq w.timezone ""
    then local_in_window (z.utc t) w
    else elim (z.load_location w.timezone) [
      | none ↦ local_in_window (z.utc t) w
      | some at ↦ local_in_window (at t) w
    ]

unfoldable pub in_some_window : Zones → Time → List TimeWindow → Bool
unfolding in_window
in_some_window z now [] = false
in_some_window z now (w ∷ ws) = in_window z now w || in_some_window z now ws

unfoldable pub is_in_window : Zones → Time → OrgPolicy → Bool
unfolding in_some_window
is_in_window z now policy = elim policy.execution_windows [
  | [] ↦ true
  | w ∷ ws ↦ in_some_window z now (w ∷ ws)
]
