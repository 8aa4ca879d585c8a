-- ===== src/Scheduler/Reaper/Requeue.antt =====
-- What a reaping round of control-plane/internal/scheduler/reaper.go requeues, and what it leaves.
use grid_token_util.Prelude.{
  ◌≡◌, refl, ◌∙◌, ◌≢◌, ◌==◌, ◌&&◌, Bool, true, false, Option, none, some, List, [], ◌∷◌, arith, ◌⊎◌,
  inl, inr, map, select, update, exists, Bool-cases,
}
use grid_token_util.Prelude.Int.{ℤ}
use grid_token_util.Domain.{Uuid, Task, queued}
use grid_token_util.Store.Db.{Db}
use grid_token_util.Store.Tasks.{is_task, set_state, update_task_state, get_stale_tasks, is_stale}
use grid_token_util.Store.Tasks.Rows.{select-update_other, map-update}
use grid_token_util.Scheduler.Reaper.{
  ReapEnv, deadline, confirmed_dead, punish, requeue, reap_all, reap,
}

-- A task that the round may requeue: stale, and Redis confirms that its worker has no heartbeat.
abbrev pub is_doomed : ReapEnv → Db → Task → Bool
is_doomed env db t = is_stale (deadline env) db.workers t && confirmed_dead env t.assigned_worker_id

pub punish-tasks :
    (env : ReapEnv) (t : Task) (w : Option Uuid) (db : Db) → (punish env t w db).tasks ≡ db.tasks
unfolding punish
punish-tasks env t none db = refl
punish-tasks env t (some w) db = refl

-- The tables after one task went back to the queue, before its worker is punished.
abbrev pub requeued : ReapEnv → Task → Db → Db
requeued env t db = record db {
  tasks = update (is_task t.id) (set_state env.now queued none) db.tasks;
}

pub requeue_cases {κ} :
    (P : Db → Type κ) (env : ReapEnv) (t : Task) (db : Db)
    → ((env.requeue_fails t.id ≡ true) ⊎ (exists (is_task t.id) db.tasks ≡ false) → P db)
    → P (punish env t t.assigned_worker_id (requeued env t db))
    → P (requeue env t db)
unfolding requeue update_task_state
requeue_cases P env t db stop run = elim (Bool-cases (env.requeue_fails t.id)) [
  | inl f ↦ rw (f, requeue) (stop (inl f))
  | inr f ↦ elim (Bool-cases (exists (is_task t.id) db.tasks)) [
    | inl e ↦ rw (f, requeue) (rw (e, requeue) run)
    | inr e ↦ rw (f, requeue) (rw (e, requeue) (stop (inr e)))
  ]
]

-- `set_state` keeps the identifier.
pub set_state-id : (env : ReapEnv) (u : Task) → (set_state env.now queued none u).id ≡ u.id
unfolding set_state
set_state-id env u = refl

requeue-other :
    (env : ReapEnv) (t : Task) (db : Db) (i : Uuid)
    → i ≢ t.id
    → select (is_task i) (requeue env t db).tasks ≡ select (is_task i) db.tasks
requeue-other env t db i ne =
    requeue_cases (λ d. select (is_task i) d.tasks ≡ select (is_task i) db.tasks) env t db
      (λ _. refl)
      (rw (punish-tasks env t t.assigned_worker_id (requeued env t db))
        (select-update_other (set_state env.now queued none) (set_state-id env) i t.id db.tasks ne))

reap_all-other :
    (env : ReapEnv) (ts : List Task) (db : Db) (i : Uuid)
    → exists (λ t. t.id == i && confirmed_dead env t.assigned_worker_id) ts ≡ false
    → select (is_task i) (reap_all env ts db).tasks ≡ select (is_task i) db.tasks
unfolding reap_all
reap_all-other env [] db i none_dead = refl
reap_all-other env (t ∷ ts) db i none_dead =
    reap_all-other env ts _ i (ground arith) ∙ ground (arith, requeue-other env t db i)

exists-select :
    (p q r : Task → Bool) (xs : List Task)
    → exists (λ x. p x && (q x && r x)) xs ≡ false
    → exists (λ x. p x && r x) (select q xs) ≡ false
exists-select p q r [] h = refl
exists-select p q r (x ∷ xs) h = ground (arith, exists-select p q r xs)

-- A round stops before the loop, with nothing done, or runs it over the stale tasks.
pub reap_cases {κ} :
    (P : Db → Type κ) (env : ReapEnv) (db : Db)
    → (env.select_fails ≡ true → P db)
    → P (reap_all env (select (is_stale (deadline env) db.workers) db.tasks) db)
    → P (reap env db)
unfolding reap get_stale_tasks
reap_cases P env db stop run = elim (Bool-cases env.select_fails) [
  | inl f ↦ rw (f, reap) (stop f)
  | inr f ↦ rw (f, reap) run
]

-- A round keeps all rows of a task unless one of its rows is stale and Redis has confirmed that its
-- worker has no heartbeat: where the worker is alive, or Redis does not answer, the task is left alone.
pub reap-spares :
    (env : ReapEnv) (db : Db) (i : Uuid)
    → exists (λ t. t.id == i && is_doomed env db t) db.tasks ≡ false
    → select (is_task i) (reap env db).tasks ≡ select (is_task i) db.tasks
reap-spares env db i h =
    reap_cases (λ d. select (is_task i) d.tasks ≡ select (is_task i) db.tasks) env db (λ _. refl)
      (reap_all-other env _ db i (exists-select (λ t. t.id == i) _ _ db.tasks h))

-- The columns that a round sets in no row.
abbrev pub fixed : Task → Option Uuid × ℤ
fixed t = (t.assigned_worker_id, t.retry_count)

requeue-fixed :
    (env : ReapEnv) (t : Task) (db : Db) → map fixed (requeue env t db).tasks ≡ map fixed db.tasks
unfolding set_state
requeue-fixed env t db =
    requeue_cases (λ d. map fixed d.tasks ≡ map fixed db.tasks) env t db (λ _. refl)
      (rw (punish-tasks env t t.assigned_worker_id (requeued env t db)) (
        map-update (set_state env.now queued none) (set_state-id env) fixed (λ u. refl)
          (is_task t.id) db.tasks))

reap_all-fixed :
    (env : ReapEnv) (ts : List Task) (db : Db)
    → map fixed (reap_all env ts db).tasks ≡ map fixed db.tasks
unfolding reap_all
reap_all-fixed env [] db = refl
reap_all-fixed env (t ∷ ts) db = reap_all-fixed env ts _ ∙ ground (arith, requeue-fixed env t db)

-- A round changes the assigned worker and the retry count of no task: a task that goes back to the
-- queue is still assigned to the worker that abandoned it, and its retry is not counted.
pub reap-fixed : (env : ReapEnv) (db : Db) → map fixed (reap env db).tasks ≡ map fixed db.tasks
reap-fixed env db =
    reap_cases (λ d. map fixed d.tasks ≡ map fixed db.tasks) env db (λ _. refl)
      (reap_all-fixed env _ db)
