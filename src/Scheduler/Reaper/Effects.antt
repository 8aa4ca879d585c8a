-- ===== src/Scheduler/Reaper/Effects.antt =====
-- What a reaping round of control-plane/internal/scheduler/reaper.go does to the tasks and the points of
-- workers that are confirmed dead.
use grid_token_util.Prelude.{
  ◌≡◌, refl, sym, subst, ◌==◌, ◌&&◌, Bool, true, false, not, none, List, [], ◌∷◌, arith, All, inl,
  inr, Memᴰ, select, update, exists, update-All, All-All, Bool-cases, and_true,
}
use grid_token_util.Domain.{Uuid, Task, queued}
use grid_token_util.Store.Db.{Db}
use grid_token_util.Store.Tasks.{is_state, is_task, set_state}
use grid_token_util.Store.Tasks.Rows.{exists-update}
use grid_token_util.Scheduler.Reaper.{ReapEnv, confirmed_dead, requeue, reap_all, reap}
use grid_token_util.Scheduler.Reaper.Requeue.{
  is_doomed, requeued, requeue_cases, reap_cases, punish-tasks, set_state-id,
}

-- Every row of the task is in the queue.
abbrev pub IsQueued : Uuid → Task → Type 0
IsQueued i u = (u.id == i && not (is_state u.state queued)) ≡ false

requeued-IsQueued :
    (env : ReapEnv) (t : Task) (tasks : List Task)
    → All (IsQueued t.id) (update (is_task t.id) (set_state env.now queued none) tasks)
unfolding set_state
requeued-IsQueued env t tasks =
    update-All {P = λ _. Unit {0}} (is_task t.id) (set_state env.now queued none) tasks
      (λ u h e. ground arith) (λ u h e. ground arith) (All-All (λ _. tt) tasks)

requeue-keeps_IsQueued :
    (env : ReapEnv) (t : Task) (db : Db) (i : Uuid)
    → All (IsQueued i) db.tasks
    → All (IsQueued i) (requeue env t db).tasks
unfolding set_state
requeue-keeps_IsQueued env t db i all =
    requeue_cases (λ d. All (IsQueued i) d.tasks) env t db (λ _. all)
      (rw (punish-tasks env t t.assigned_worker_id (requeued env t db)) (
        update-All (is_task t.id) (set_state env.now queued none) db.tasks (λ u h e. ground arith)
          (λ u h e. h) all))

reap_all-keeps_IsQueued :
    (env : ReapEnv) (ts : List Task) (db : Db) (i : Uuid)
    → All (IsQueued i) db.tasks
    → All (IsQueued i) (reap_all env ts db).tasks
unfolding reap_all
reap_all-keeps_IsQueued env [] db i all = all
reap_all-keeps_IsQueued env (t ∷ ts) db i all =
    reap_all-keeps_IsQueued env ts _ i
      (elim (Bool-cases (confirmed_dead env t.assigned_worker_id)) [
        | inl e ↦ rw e (requeue-keeps_IsQueued env t db i all)
        | inr e ↦ rw e all
      ])

requeue-exists :
    (env : ReapEnv) (t : Task) (db : Db) (i : Uuid)
    → exists (is_task i) (requeue env t db).tasks ≡ exists (is_task i) db.tasks
requeue-exists env t db i =
    requeue_cases (λ d. exists (is_task i) d.tasks ≡ exists (is_task i) db.tasks) env t db
      (λ _. refl)
      (rw (punish-tasks env t t.assigned_worker_id (requeued env t db))
        (exists-update (set_state env.now queued none) (set_state-id env) i t.id db.tasks))

reap_all-queues :
    (env : ReapEnv) (t : Task) (ts : List Task) (db : Db)
    → Memᴰ t ts
    → confirmed_dead env t.assigned_worker_id ≡ true
    → env.requeue_fails t.id ≡ false
    → exists (is_task t.id) db.tasks ≡ true
    → All (IsQueued t.id) (reap_all env ts db).tasks
unfolding reap_all
reap_all-queues env t [] db m dead f e = elim m [ ]
reap_all-queues env t (u ∷ ts) db (Memᴰ.head same) dead f e =
    reap_all-keeps_IsQueued env ts _ t.id (
      rw (sym same) (
        rw dead (
          requeue_cases (λ d. All (IsQueued t.id) d.tasks) env t db (λ c. absurd (ground arith))
            (rw (punish-tasks env t t.assigned_worker_id (requeued env t db))
              (requeued-IsQueued env t db.tasks)))))
reap_all-queues env t (u ∷ ts) db (Memᴰ.tail m) dead f e =
    reap_all-queues env t ts _ m dead f (ground (arith, requeue-exists env u db t.id))

mem-exists : (t : Task) (tasks : List Task) → Memᴰ t tasks → exists (is_task t.id) tasks ≡ true
mem-exists t [] m = elim m [ ]
mem-exists t (u ∷ us) (Memᴰ.head e) = ground arith
mem-exists t (u ∷ us) (Memᴰ.tail m) = ground (arith, mem-exists t us m)

mem-select :
    (p : Task → Bool) (t : Task) (tasks : List Task)
    → Memᴰ t tasks
    → p t ≡ true
    → Memᴰ t (select p tasks)
mem-select p t [] m h = elim m [ ]
mem-select p t (u ∷ us) (Memᴰ.head e) h =
    subst (λ v. Memᴰ t (select p (v ∷ us))) e (rw h (Memᴰ.head refl))
mem-select p t (u ∷ us) (Memᴰ.tail m) h = elim (Bool-cases (p u)) [
  | inl e ↦ rw e (Memᴰ.tail (mem-select p t us m h))
  | inr e ↦ rw e (mem-select p t us m h)
]

-- A task that is stale, and whose worker Redis confirms to have no heartbeat, is back in the queue after a
-- round in which the database answers for it.
pub reap-requeues :
    (env : ReapEnv) (db : Db) (t : Task)
    → Memᴰ t db.tasks
    → is_doomed env db t ≡ true
    → env.select_fails ≡ false
    → env.requeue_fails t.id ≡ false
    → All (IsQueued t.id) (reap env db).tasks
reap-requeues env db t m doomed s f =
    reap_cases (λ d. All (IsQueued t.id) d.tasks) env db (λ c. cc)
      (reap_all-queues env t _ db (mem-select _ t db.tasks m (and_true _ _ doomed).0)
        (and_true _ _ doomed).1 f (mem-exists t db.tasks m))
