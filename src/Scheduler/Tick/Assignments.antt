-- ===== src/Scheduler/Tick/Assignments.antt =====
-- What one scheduling round of control-plane/internal/scheduler/scheduler.go assigns.
use grid_token_util.Prelude.{
  ℕ, zero, suc, ◌≤◌, ◌≡◌, refl, sym, ap, subst, ◌∙◌, ◌≢◌, ◌==◌, ◌&&◌, true, false, Option, none,
  some, List, [], ◌∷◌, arith, All, length, select, update-All, All-All, Memᴰ-All,
}
use grid_token_util.Prelude.Results.{Result, StoreError, ok, err}
use grid_token_util.Domain.{Uuid, Task, Worker, queued, assigned}
use grid_token_util.Store.Db.{Db}
use grid_token_util.Store.Tasks.{ClaimEnv, claim_in_tx, claim, is_state, is_task, has_agent}
use grid_token_util.Store.Tasks.Claim.{Claims, claim_in_tx-Claims, claim_in_tx-none}
use grid_token_util.Store.Tasks.Rows.{select-update_other}
use grid_token_util.Scheduler.Tick.{TickEnv, Assignment, Round, assign, mark_busy}

-- How a claim ends: an error, no task, or a task of the table.
data Ending (env : ClaimEnv) (w : Worker) (tasks : List Task) (r : Result (Option Task × List Task))
    : Type 0 where
  failed : (e : StoreError) → r ≡ err e → Ending env w tasks r
  nothing : r ≡ ok (none, tasks) → Ending env w tasks r
  taken :
      (t : Task) (rows : List Task)
      → r ≡ ok (some t, rows)
      → Claims env w.id w.agents tasks t rows
      → Ending env w tasks r

ending :
    (env : ClaimEnv) (w : Worker) (tasks : List Task)
    → Ending env w tasks (claim_in_tx env w.id w.agents tasks)
ending env w tasks = go (claim_in_tx env w.id w.agents tasks) refl
  where
    go :
        (r : Result (Option Task × List Task))
        → claim_in_tx env w.id w.agents tasks ≡ r
        → Ending env w tasks r
    go (err e) h = failed e refl
    go (ok (none, rows)) h =
        nothing (ap (λ x. ok (none, x)) (claim_in_tx-none env w.id w.agents tasks h))
    go (ok (some t, rows)) h = taken t rows refl (claim_in_tx-Claims env w.id w.agents tasks h)

-- The round that begins by assigning `t` to `w`.
abbrev assigned_first : TickEnv → ℕ → Worker → List Worker → Db → Task → List Task → Round
assigned_first env q w ws db t rows =
    let rest = assign env q ws (mark_busy env w t rows db) in
    record { db = rest.db; log = record { task = t; worker = w } ∷ rest.log }

-- The loop's turn for one worker either passes on, or assigns the task that was claimed.
assign_cases {κ} :
    (P : Round → Type κ) (env : TickEnv) (q : ℕ) (w : Worker) (ws : List Worker) (db : Db)
    → P (assign env (suc q) ws db)
    → ((t : Task) (rows : List Task)
        → Claims (env.claim_env w.id) w.id w.agents db.tasks t rows
        → P (assigned_first env q w ws db t rows))
    → P (assign env (suc q) (w ∷ ws) db)
unfolding assign
assign_cases P env q w ws db pass take = elim (ending (env.claim_env w.id) w db.tasks) [
  | failed e h ↦ rw (h, assign) pass
  | nothing h ↦ rw (h, assign) pass
  | taken t rows h c ↦ rw (h, assign) (take t rows c)
]

-- No more assignments than the round may make.
pub assign-length :
    (env : TickEnv) (q : ℕ) (ws : List Worker) (db : Db) → length (assign env q ws db).log ≤ q
unfolding assign
assign-length env zero ws db = omega arith
assign-length env (suc q) [] db = omega arith
assign-length env (suc q) (w ∷ ws) db =
    assign_cases (λ r. length r.log ≤ suc q) env q w ws db (assign-length env (suc q) ws db)
      λ t rows c. omega (arith, assign-length env q ws (mark_busy env w t rows db))

-- What is true of every assignment: an agent of the worker serves the task, which is now assigned to it.
pub record IsSound (a : Assignment) : Type 0 where
  pub served : has_agent a.worker.agents a.task.ai_agent ≡ true
  pub now_assigned : a.task.state ≡ assigned
  pub to_worker : a.task.assigned_worker_id ≡ some a.worker.id

Claims-IsSound :
    (env : ClaimEnv) (w : Worker) (tasks : List Task) (t : Task) (rows : List Task)
    → Claims env w.id w.agents tasks t rows
    → IsSound (record { task = t; worker = w })
unfolding claim
Claims-IsSound env w tasks t rows c = ground (arith, c.claimable, c.claimed)

pub assign-IsSound :
    (env : TickEnv) (q : ℕ) (ws : List Worker) (db : Db) → All IsSound (assign env q ws db).log
unfolding assign
assign-IsSound env zero ws db = tt
assign-IsSound env (suc q) [] db = tt
assign-IsSound env (suc q) (w ∷ ws) db =
    assign_cases (λ r. All IsSound r.log) env q w ws db (assign-IsSound env (suc q) ws db)
      λ t rows c. (Claims-IsSound _ w db.tasks t rows c, assign-IsSound env q ws _)

-- The worker of every assignment is one of those that the loop is given.
pub assign-workers {κ} :
    (P : Worker → Type κ) (env : TickEnv) (q : ℕ) (ws : List Worker) (db : Db)
    → All P ws
    → All (λ a. P a.worker) (assign env q ws db).log
unfolding assign
assign-workers P env zero ws db all = tt
assign-workers P env (suc q) [] db all = tt
assign-workers P env (suc q) (w ∷ ws) db all =
    assign_cases (λ r. All (λ a. P a.worker) r.log) env q w ws db
      (assign-workers P env (suc q) ws db all.1)
      λ t rows c. (all.0, assign-workers P env q ws _ all.1)

-- No row with this identifier waits for a worker.
abbrev NotQueued : Uuid → Task → Type 0
NotQueued i t = (t.id == i && is_state t.state queued) ≡ false

claimed-NotQueued :
    (env : ClaimEnv) (w : Worker) (tasks : List Task) (t : Task) (rows : List Task) (i : Uuid)
    → Claims env w.id w.agents tasks t rows
    → All (NotQueued i) tasks
    → (t.id ≢ i) × All (NotQueued i) rows
unfolding claim
claimed-NotQueued env w tasks t rows i c all = (
  ground (arith, Memᴰ-All (NotQueued i) tasks c.present all, c.claimable, c.claimed),
  subst (All (NotQueued i)) (sym c.updated) (
      update-All (is_task c.row.id) (claim env.now w.id) tasks (λ u h e. ground arith) (λ u h e. h)
        all),
)

claimed-NotQueued_self :
    (env : ClaimEnv) (w : Worker) (tasks : List Task) (t : Task) (rows : List Task)
    → Claims env w.id w.agents tasks t rows
    → All (NotQueued t.id) rows
unfolding claim
claimed-NotQueued_self env w tasks t rows c = subst (All (NotQueued t.id)) (sym c.updated) (
    update-All {P = λ _. Unit {0}} (is_task c.row.id) (claim env.now w.id) tasks
      (λ u h e. ground arith) (λ u h e. ground (arith, c.claimed)) (All-All (λ _. tt) tasks))

assign-avoids :
    (env : TickEnv) (q : ℕ) (ws : List Worker) (db : Db) (i : Uuid)
    → All (NotQueued i) db.tasks
    → All (λ a. a.task.id ≢ i) (assign env q ws db).log
unfolding assign mark_busy
assign-avoids env zero ws db i all = tt
assign-avoids env (suc q) [] db i all = tt
assign-avoids env (suc q) (w ∷ ws) db i all =
    assign_cases (λ r. All (λ a. a.task.id ≢ i) r.log) env q w ws db
      (assign-avoids env (suc q) ws db i all)
      λ t rows c.
        let (other, kept) = claimed-NotQueued _ w db.tasks t rows i c all in
        (other, assign-avoids env q ws _ i kept)

-- No two assignments are of the same task.
abbrev pub IsDistinct : List Assignment → Type 0
IsDistinct [] = Unit
IsDistinct (a ∷ as') = All (λ b. b.task.id ≢ a.task.id) as' × IsDistinct as'

pub assign-IsDistinct :
    (env : TickEnv) (q : ℕ) (ws : List Worker) (db : Db) → IsDistinct (assign env q ws db).log
unfolding assign mark_busy
assign-IsDistinct env zero ws db = tt
assign-IsDistinct env (suc q) [] db = tt
assign-IsDistinct env (suc q) (w ∷ ws) db =
    assign_cases (λ r. IsDistinct r.log) env q w ws db (assign-IsDistinct env (suc q) ws db)
      λ t rows c. (
        assign-avoids env q ws _ t.id (claimed-NotQueued_self _ w db.tasks t rows c),
        assign-IsDistinct env q ws _,
      )

abbrev pub Kept : Uuid → Db → Round → Type 0
Kept i db r =
    All (λ a. a.task.id ≢ i) r.log → select (is_task i) r.db.tasks ≡ select (is_task i) db.tasks

-- The rows of a task that the round does not assign are kept.
pub assign-keeps :
    (env : TickEnv) (q : ℕ) (ws : List Worker) (db : Db) (i : Uuid)
    → All (λ a. a.task.id ≢ i) (assign env q ws db).log
    → select (is_task i) (assign env q ws db).db.tasks ≡ select (is_task i) db.tasks
unfolding assign mark_busy
assign-keeps env zero ws db i all = refl
assign-keeps env (suc q) [] db i all = refl
assign-keeps env (suc q) (w ∷ ws) db i all =
    assign_cases (λ r. Kept i db r) env q w ws db (assign-keeps env (suc q) ws db i)
      (λ t rows c rest.
        assign-keeps env q ws _ i rest.1
        ∙ rw c.updated (
            select-update_other (claim (env.claim_env w.id).now w.id) (unfold claim in λ u. refl) i
              c.row.id db.tasks (λ e. rest.0 (unfold claim in ground (arith, c.claimed)))))
      all
