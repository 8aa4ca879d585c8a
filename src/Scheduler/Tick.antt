-- ===== src/Scheduler/Tick.antt =====
-- `tick` of control-plane/internal/scheduler/scheduler.go. The goroutine of `Start` calls it once for
-- each tick of its timer.
pub mod Assignments
pub mod Rounds
use grid_token_util.Prelude.{
  ℕ, zero, suc, Bool, ◌==◌, Option, none, some, List, [], ◌∷◌, if◌then◌else◌,
}
use grid_token_util.Prelude.Results.{ok, err, after}
use grid_token_util.Domain.{Uuid, Time, Task, Worker, busy}
use grid_token_util.Store.Tasks.{ClaimEnv, claim_in_tx}
use grid_token_util.Store.Workers.{list_idle_workers, update_worker_state}
use grid_token_util.Store.Db.{Db}

-- What Redis and the database answer during a round: the length of the queue, if Redis is there,
-- and the course of the claim of each worker.
pub record TickEnv : Type 0 where
  pub now : Time
  pub queue_length : Option ℕ
  pub list_fails : Bool
  pub claim_env : Uuid → ClaimEnv
  pub mark_fails : Uuid → Bool

-- The line "task assigned" of the log.
pub record Assignment : Type 0 where
  pub task : Task
  pub worker : Worker

pub record Round : Type 0 where
  pub db : Db
  pub log : List Assignment

unfoldable pub mark_busy : TickEnv → Worker → Task → List Task → Db → Db
unfolding update_worker_state
mark_busy env w t tasks db = record db {
  tasks = tasks;
  workers = after db.workers (update_worker_state (env.mark_fails w.id) w.id busy db.workers);
}

-- The loop over the idle workers; the number is what is left of `qLen`.
unfoldable pub assign : TickEnv → ℕ → List Worker → Db → Round
unfolding mark_busy
assign env zero ws db = record { db = db; log = [] }
assign env (suc q) [] db = record { db = db; log = [] }
assign env (suc q) (w ∷ ws) db = elim (claim_in_tx (env.claim_env w.id) w.id w.agents db.tasks) [
  | err e ↦ assign env (suc q) ws db
  | ok (none, tasks) ↦ assign env (suc q) ws (record db { tasks = tasks })
  | ok (some t, tasks) ↦
      let rest = assign env q ws (mark_busy env w t tasks db) in
      record { db = rest.db; log = record { task = t; worker = w } ∷ rest.log }
]

unfoldable pub idle_round : TickEnv → Db → ℕ → Round
unfolding assign list_idle_workers
idle_round env db q = elim (list_idle_workers env.list_fails env.now db.workers) [
  | err e ↦ record { db = db; log = [] }
  | ok ws ↦ assign env q ws db
]

unfoldable pub tick : TickEnv → Db → Round
unfolding idle_round
tick env db = elim env.queue_length [
  | none ↦ record { db = db; log = [] }
  | some q ↦ if q == 0 then record { db = db; log = [] } else idle_round env db q
]
