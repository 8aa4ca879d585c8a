-- ===== src/Api/Outputs/Submissions.antt =====
-- The submissions of control-plane/internal/api/handlers/outputs.go.
use grid_token_util.Prelude.{
  Option, none, refl, inl, inr, Option-cases, ◌≡◌, ◌↔◌, ◌==◌, String, true, false, ◌||◌, some, [],
  ◌∷◌, ◌++◌, arith, if◌then◌else◌, exists, str_eq,
}
use grid_token_util.Prelude.Int.{◌+ℤ◌}
use grid_token_util.Prelude.Replies.{answer}
use grid_token_util.Domain.{Uuid}
use grid_token_util.Store.Db.{Db}
use grid_token_util.Store.Outputs.{balance}
use grid_token_util.Brownie.{event, award, points_task_completed}
use grid_token_util.Brownie.Balance.{balance-snoc}
use grid_token_util.Api.Context.{Context}
use grid_token_util.Api.Outputs.{SubmitRequest, SubmitEnv, submit, new_output, submission_entry}

-- What an accepted submission of a worker for a task does.
pub record Submits (c : Context) (req : SubmitRequest) (signature : String) (env : SubmitEnv)
    (db : Db) (worker task : Uuid) (db' : Db) : Type 0 where
  pub by_worker : c.worker_id ≡ some (some worker)
  pub for_task : req.task_id ≡ some task
  pub signed : str_eq signature req.hmac_sha256 ≡ true
  pub outputs : db'.outputs ≡ db.outputs ++ new_output worker task req env ∷ []
  pub tasks : db'.tasks ≡ db.tasks
  pub balance : balance worker db'.ledger ≡ (
      if env.ledger_fails || exists (λ e. e.id == env.fresh_entry) db.ledger
      then balance worker db.ledger
      else balance worker db.ledger +ℤ points_task_completed)

-- A submission that is accepted comes with a key of a worker, its body is read and names a task, and its signature is the one of
-- the header. It adds one output that awaits review, leaves every task, and gives the worker the points of a completed task, unless
-- the entry of the ledger cannot be written: neither the state of the task, nor the worker it is assigned to, nor an earlier
-- submission plays a part.
pub submit-Submits :
    (c : Context) (body : Option SubmitRequest) (signature : String) (env : SubmitEnv) (db : Db)
    {id : Uuid}
    → (submit c body signature env db).1 ≡ answer id
    → (req : SubmitRequest) × (worker : Uuid) × (task : Uuid) × (body ≡ some req)
      × Submits c req signature env db worker task (submit c body signature env db).0
unfolding submit award
submit-Submits c none signature env db h = absurd (ground (arith, h))
submit-Submits c (some req) signature env db h = elim (Option-cases c.worker_id) [
  | inl e ↦ absurd (ground (arith, h, e))
  | inr (none, e) ↦ absurd (ground (arith, h, e))
  | inr (some worker, e) ↦ elim (Option-cases req.task_id) [
    | inl f ↦ absurd (ground (arith, h, e, f))
    | inr (task, f) ↦ (
      req,
      worker,
      task,
      refl,
      record {
        by_worker = e;
        for_task = f;
        signed = ground (arith, h, e, f);
        outputs = ground (arith, h, e, f);
        tasks = ground (arith, h, e, f);
        balance = ground (
          arith,
          h,
          e,
          f,
          balance-snoc worker (event (submission_entry c worker task env) points_task_completed)
              db.ledger,
        );
      },
    )
  ]
]

-- A submission is accepted exactly when the key has a worker, the body is read and names a task, its
-- signature is the header's, and the row can be written.
pub submit-accepted :
    (c : Context) (req : SubmitRequest) (signature : String) (env : SubmitEnv) (db : Db)
    (worker task : Uuid)
    → c.worker_id ≡ some (some worker)
    → req.task_id ≡ some task
    → ((submit c (some req) signature env db).1 ≡ answer env.fresh_id) ↔ (
        (str_eq signature req.hmac_sha256 ≡ true)
        × (env.insert_fails ≡ false)
        × (exists (λ o. o.id == env.fresh_id) db.outputs ≡ false))
unfolding submit award
submit-accepted c req signature env db worker task hw ht = ground arith
