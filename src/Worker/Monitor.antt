-- ===== src/Worker/Monitor.antt =====
-- grid-worker/internal/executor/monitor.go: the counters of consecutive violations. A measurement is an
-- argument, `none` where it fails; a percentage is an integer in whatever unit the limit has.
pub mod Consecutive
use grid_token_util.Prelude.{
  ℕ, zero, suc, ◌+◌, Bool, true, false, not, ◌&&◌, ◌||◌, Option, none, some, List, [], ◌∷◌,
  if◌then◌else◌, leb,
}
use grid_token_util.Prelude.Int.{ℤ, pos, ltb_ℤ, leb_ℤ}

-- The counter after a check, and whether the task goes on.
unfoldable pub check_cpu : ℤ → Option ℤ → ℕ → ℕ × Bool
check_cpu limit none n = (n, true)
check_cpu limit (some cpu) n =
    if leb_ℤ limit (pos 0)
    then (n, true)
    else if ltb_ℤ limit cpu
    then (suc n, not (leb 2 (suc n)))
    else (0, true)

unfoldable pub check_ram : ℤ → Option ℤ → ℕ → ℕ × Bool
check_ram limit none n = (n, true)
check_ram limit (some used) n =
    if leb_ℤ limit (pos 0)
    then (n, true)
    else if ltb_ℤ limit used
    then (suc n, not (leb 2 (suc n)))
    else (0, true)

pub record Limits : Type 0 where
  pub max_cpu_percent : ℤ
  pub max_ram_mb : ℤ

pub record Sample : Type 0 where
  pub cpu : Option ℤ
  pub ram : Option ℤ

-- `Start` over the samples of its ticks, from the two counters: whether it kills the task.
unfoldable pub kills_from : Limits → ℕ → ℕ → List Sample → Bool
unfolding check_cpu check_ram
kills_from l c r [] = false
kills_from l c r (s ∷ ss) =
    let (c', cpu_ok) = check_cpu l.max_cpu_percent s.cpu c in
    let (r', ram_ok) = check_ram l.max_ram_mb s.ram r in
    let rest = kills_from l c' r' ss in if not cpu_ok || not ram_ok then true else rest

unfoldable pub kills : Limits → List Sample → Bool
unfolding kills_from
kills l ss = kills_from l 0 0 ss
