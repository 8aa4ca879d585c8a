-- ===== src/Scheduler/Reaper.antt =====
-- `reap` of control-plane/internal/scheduler/reaper.go. The goroutine of `Start` calls it once for each
-- tick of its timer.
pub mod Requeue
pub mod Effects
pub mod Penalties
use grid_token_util.Prelude.{
  ℕ, ◌-◌, ◌*◌, String, Bool, true, false, not, Option, none, some, List, [], ◌∷◌, if◌then◌else◌,
}
use grid_token_util.Prelude.Int.{pos}
use grid_token_util.Prelude.Results.{ok, err, after}
use grid_token_util.Domain.{Uuid, Time, Task, Worker, BrownieEvent, queued, offline}
use grid_token_util.Store.Tasks.{get_stale_tasks, update_task_state}
use grid_token_util.Store.Workers.{update_worker_state}
use grid_token_util.Store.Db.{Db}
use grid_token_util.Brownie.{Entry, deduct}

-- What Redis and the database answer during a round. `heartbeat` is what `GetWorkerHeartbeat`
-- returns for a worker, `none` where Redis fails; the other fields are asked by the task.
pub record ReapEnv : Type 0 where
  pub now : Time
  pub heartbeat_ttl_sec : ℕ
  pub select_fails : Bool
  pub heartbeat : Uuid → Option Bool
  pub requeue_fails : Uuid → Bool
  pub offline_fails : Uuid → Bool
  pub has_brownie : Bool
  pub event_id : Uuid → Uuid
  pub ledger_fails : Uuid → Bool

abbrev pub deadline : ReapEnv → Time
deadline env = env.now - env.heartbeat_ttl_sec * 1000000

abbrev pub abandoned : ReapEnv → Task → Uuid → Entry
abandoned env t w = record {
  worker = w;
  org = t.org_unit_id;
  reason = "task_abandoned";
  ref = some t.id;
  fresh_id = env.event_id t.id;
  now = env.now;
  fault = env.ledger_fails t.id;
}

-- The worker of a task that has been requeued is marked offline and loses five points.
unfoldable pub punish : ReapEnv → Task → Option Uuid → Db → Db
punish env t none db = db
punish env t (some w) db = record db {
  workers = after db.workers (update_worker_state (env.offline_fails t.id) w offline db.workers);
  ledger =
      if env.has_brownie
      then after db.ledger (deduct (abandoned env t w) (pos 5) db.ledger)
      else db.ledger;
}

unfoldable pub requeue : ReapEnv → Task → Db → Db
unfolding punish
requeue env t db =
    elim (update_task_state (env.requeue_fails t.id) env.now t.id queued none db.tasks) [
      | err e ↦ db
      | ok tasks ↦ punish env t t.assigned_worker_id (record db { tasks = tasks })
    ]

-- Redis answers, and knows no heartbeat of the worker.
abbrev pub confirmed_dead : ReapEnv → Option Uuid → Bool
confirmed_dead env none = true
confirmed_dead env (some w) = elim (env.heartbeat w) [ none ↦ false | some alive ↦ not alive ]

-- The loop over the stale tasks.
unfoldable pub reap_all : ReapEnv → List Task → Db → Db
reap_all env [] db = db
reap_all env (t ∷ ts) db =
    reap_all env ts (if confirmed_dead env t.assigned_worker_id then requeue env t db else db)

unfoldable pub reap : ReapEnv → Db → Db
unfolding reap_all get_stale_tasks
reap env db = elim (get_stale_tasks env.select_fails (deadline env) db.workers db.tasks) [
  | err e ↦ db
  | ok ts ↦ reap_all env ts db
]
