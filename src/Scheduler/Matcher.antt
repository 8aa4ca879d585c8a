-- ===== src/Scheduler/Matcher.antt =====
-- control-plane/internal/scheduler/matcher.go, with the arithmetic of Go's 64-bit `int`.
pub mod Best
use grid_token_util.Prelude.{
  Bool, true, false, not, Option, none, some, List, [], ◌∷◌, if◌then◌else◌,
}
use grid_token_util.Prelude.Int.{ℤ, pos, negsuc, ◌+ℤ◌, ◌-ℤ◌, ◌*ℤ◌, quot, wrap64, ltb_ℤ}
use grid_token_util.Domain.{Task, Worker, idle}
use grid_token_util.Store.Tasks.{has_agent}
use grid_token_util.Store.Workers.{is_worker_state}

-- The score of a compatible pair, before 64 bits wrap it.
unfoldable pub raw_score : Task → Worker → ℤ
unfolding ◌+ℤ◌ ◌-ℤ◌ ◌*ℤ◌ quot
raw_score task worker =
    task.priority *ℤ 10 +ℤ quot worker.capacity_score 10 -ℤ task.retry_count *ℤ 5

unfoldable pub match_score : Task → Worker → ℤ
match_score task worker =
    if not (has_agent worker.agents task.ai_agent)
    then negsuc 0
    else if not (is_worker_state worker.state idle)
    then negsuc 0
    else wrap64 (raw_score task worker)

-- The loop over the workers, with `best` and `bestScore`.
unfoldable pub best_from : Task → List Worker → Option Worker → ℤ → Option Worker
best_from task [] best score = best
best_from task (w ∷ ws) best score =
    best_from task ws (if ltb_ℤ score (match_score task w) then some w else best)
      (if ltb_ℤ score (match_score task w) then match_score task w else score)

unfoldable pub best_worker : Task → List Worker → Option Worker
unfolding best_from
best_worker task workers = best_from task workers none (negsuc 0)
