-- ===== src/Scheduler/Tick/Rounds.antt =====
-- Whole rounds of `tick` of control-plane/internal/scheduler/scheduler.go.
use grid_token_util.Prelude.{
  ℕ, ◌≤◌, ◌≡◌, refl, ◌≢◌, ◌∙◌, true, some, List, [], arith, All, length, inl, inr, select,
  select-All, All-All, Bool-cases, Option-cases, ◌==◌, some-injective, subst, sym,
}
use grid_token_util.Prelude.Order.{sort, sort-All}
use grid_token_util.Domain.{Uuid, Worker}
use grid_token_util.Store.Db.{Db}
use grid_token_util.Store.Tasks.{is_task}
use grid_token_util.Store.Workers.{is_ready, stronger, list_idle_workers}
use grid_token_util.Scheduler.Tick.{TickEnv, Round, assign, idle_round, tick}
use grid_token_util.Scheduler.Tick.Assignments.{
  IsSound, IsDistinct, Kept, assign-length, assign-IsSound, assign-workers, assign-IsDistinct,
  assign-keeps,
}

abbrev ready_workers : TickEnv → Db → List Worker
ready_workers env db = sort stronger (select (is_ready env.now) db.workers)

-- A round stops before the loop, with nothing done, or runs it over the idle workers.
tick_cases {κ} :
    (P : Round → Type κ) (env : TickEnv) (db : Db)
    → P (record { db = db; log = [] })
    → ((q : ℕ) → env.queue_length ≡ some q → P (assign env q (ready_workers env db) db))
    → P (tick env db)
tick_cases P env db stop run = elim (Option-cases env.queue_length) [
  | inl e ↦ unfold tick in rw (e, tick) stop
  | inr (q, e) ↦ elim (Bool-cases (q == 0)) [
    | inl z ↦ unfold tick in rw (e, tick) (rw z stop)
    | inr nz ↦ elim (Bool-cases env.list_fails) [
      | inl f ↦ unfold tick idle_round list_idle_workers in rw (e, tick) (rw nz (rw f stop))
      | inr f ↦ unfold tick idle_round list_idle_workers in rw (e, tick) (rw nz (rw f (run q e)))
    ]
  ]
]

ready_workers-All :
    (env : TickEnv) (db : Db) → All (λ w. is_ready env.now w ≡ true) (ready_workers env db)
ready_workers-All env db =
    sort-All stronger _ _
      (select-All _ (is_ready env.now) db.workers (All-All (λ w h. h) db.workers))

-- A round makes at most as many assignments as the queue was long when it began.
pub tick-length :
    (env : TickEnv) (db : Db) (q : ℕ) → env.queue_length ≡ some q → length (tick env db).log ≤ q
tick-length env db q e =
    tick_cases (λ r. length r.log ≤ q) env db (omega arith)
      λ p f.
        subst (λ n. length (assign env p (ready_workers env db) db).log ≤ n)
          (some-injective _ _ (sym f ∙ e)) (assign-length env p (ready_workers env db) db)

-- Every assignment of a round gives the task to a worker that is idle, has sent a heartbeat in the last
-- 90 seconds and lists the task's agent; the task is then assigned to this worker.
pub tick-IsSound :
    (env : TickEnv) (db : Db)
    → All IsSound (tick env db).log × All (λ a. is_ready env.now a.worker ≡ true) (tick env db).log
tick-IsSound env db =
    tick_cases (λ r. All IsSound r.log × All (λ a. is_ready env.now a.worker ≡ true) r.log) env db
      (tt, tt)
      λ q e. (
        assign-IsSound env q (ready_workers env db) db,
        assign-workers _ env q (ready_workers env db) db (ready_workers-All env db),
      )

-- A round assigns no task twice.
pub tick-IsDistinct : (env : TickEnv) (db : Db) → IsDistinct (tick env db).log
tick-IsDistinct env db =
    tick_cases (λ r. IsDistinct r.log) env db tt
      λ q e. assign-IsDistinct env q (ready_workers env db) db

-- A round keeps all rows of a task that it does not assign.
pub tick-keeps :
    (env : TickEnv) (db : Db) (i : Uuid)
    → All (λ a. a.task.id ≢ i) (tick env db).log
    → select (is_task i) (tick env db).db.tasks ≡ select (is_task i) db.tasks
tick-keeps env db i =
    tick_cases (Kept i db) env db (λ h. refl)
      (λ q e. assign-keeps env q (ready_workers env db) db i)
