-- ===== src/Api/Outputs.antt =====
-- control-plane/internal/api/handlers/outputs.go. As in Api/Tasks, a request holds what is decoded
-- from it, and what the environment gives is an argument.
pub mod Submissions
pub mod Reviews
use grid_token_util.Prelude.{
  ◌==◌, String, Bool, true, false, not, ◌||◌, Option, none, some, List, if◌then◌else◌, str_eq,
}
use grid_token_util.Prelude.Int.{ℤ, neg}
use grid_token_util.Prelude.Results.{Result, ok, err}
use grid_token_util.Prelude.Replies.{
  Handler, Reply, answer, refused, ◌>>=◌, ◌>>◌, respond, check, require, fetch, commit, attempt,
}
use grid_token_util.Domain.{
  Uuid, Time, Options, ArtifactMeta, OutputPackage, BrownieEvent, ReviewStatus, pending, approved,
  rejected, changes_requested,
}
use grid_token_util.Store.Db.{Db}
use grid_token_util.Store.Tasks.{get_task as select_task}
use grid_token_util.Store.Outputs.{create_output, get_output, update_output_review}
use grid_token_util.Brownie.{
  Entry, award, deduct, points_task_completed, points_output_approved, points_output_rejected,
}
use grid_token_util.Api.Context.{Context}

pub record SubmitRequest : Type 0 where
  pub task_id : Option Uuid
  pub hmac_sha256 : String
  pub artifacts : List ArtifactMeta
  pub metadata : Options

-- `fresh_id` is the output's identifier, `fresh_entry` the one of the ledger's entry.
pub record SubmitEnv : Type 0 where
  pub now : Time
  pub fresh_id : Uuid
  pub fresh_entry : Uuid
  pub insert_fails : Bool
  pub ledger_fails : Bool

abbrev pub new_output : Uuid → Uuid → SubmitRequest → SubmitEnv → OutputPackage
new_output worker task req env = record {
  id = env.fresh_id;
  task_id = task;
  worker_id = worker;
  hmac_sha256 = req.hmac_sha256;
  artifacts = req.artifacts;
  metadata = req.metadata;
  review_status = pending;
  reviewer_id = none;
  submitted_at = env.now;
  reviewed_at = none;
}

abbrev pub with_outputs : Db → Result (List OutputPackage) → Result Db
with_outputs db (ok outputs) = ok (record db { outputs = outputs })
with_outputs db (err e) = err e

abbrev pub with_ledger : Db → Result (List BrownieEvent) → Result Db
with_ledger db (ok ledger) = ok (record db { ledger = ledger })
with_ledger db (err e) = err e

-- A key that is bound to no worker is refused as one without a worker.
abbrev bound_worker : Option (Option Uuid) → Option Uuid
bound_worker none = none
bound_worker (some w) = w

-- `uuid.Nil` where the context names no organisation.
abbrev pub org_or_nil : Option Uuid → Uuid
org_or_nil none = 0
org_or_nil (some o) = o

abbrev pub submission_entry : Context → Uuid → Uuid → SubmitEnv → Entry
submission_entry c worker task env = record {
  worker = worker;
  org = org_or_nil c.org_unit_id;
  reason = "task_completed";
  ref = some task;
  fresh_id = env.fresh_entry;
  now = env.now;
  fault = env.ledger_fails;
}

-- `Submit`; `signature` is the header X-HMAC-SHA256.
unfoldable pub submit : Context → Option SubmitRequest → String → SubmitEnv → Handler Db Uuid
unfolding create_output award
submit c body signature env = do
  worker ← require (bound_worker c.worker_id) 403 "worker authentication required"
  req ← require body 400 "invalid JSON"
  check (str_eq signature req.hmac_sha256) 422 "HMAC mismatch"
  task ← require req.task_id 400 "invalid task_id"
  commit
      (λ db.
        with_outputs db
          (create_output env.insert_fails (new_output worker task req env) db.outputs))
      500 "internal error"
  attempt (λ db.
      with_ledger db (award (submission_entry c worker task env) points_task_completed db.ledger))
  respond env.fresh_id

-- The statuses that a review may set.
abbrev pub review_status : String → Option ReviewStatus
review_status s =
    if str_eq s "approved"
    then some approved
    else if str_eq s "rejected"
    then some rejected
    else if str_eq s "changes_requested"
    then some changes_requested
    else none

pub record ReviewEnv : Type 0 where
  pub now : Time
  pub fresh_entry : Uuid
  pub output_fails : Bool
  pub task_fails : Bool
  pub update_fails : Bool
  pub ledger_fails : Bool

abbrev pub review_entry : Uuid → Uuid → Uuid → String → ReviewEnv → Entry
review_entry worker org id reason env = record {
  worker = worker;
  org = org;
  reason = reason;
  ref = some id;
  fresh_id = env.fresh_entry;
  now = env.now;
  fault = env.ledger_fails;
}

-- The points of a decision.
unfoldable pub settle : Uuid → Uuid → Uuid → ReviewEnv → ReviewStatus → Db → Result Db
unfolding award deduct
settle worker org id env approved db =
    with_ledger db
      (award (review_entry worker org id "output_approved" env) points_output_approved db.ledger)
settle worker org id env rejected db = with_ledger db (
    deduct (review_entry worker org id "output_rejected" env) (neg points_output_rejected)
      db.ledger)
settle worker org id env _ db = ok db

-- `Review`; `status` is the field `review_status` of the body.
unfoldable pub review : Context → Option Uuid → Option String → ReviewEnv → Handler Db (Unit {0})
unfolding get_output select_task update_output_review settle
review c id status env = do
  org ← require c.org_unit_id 401 "unauthorized"
  reviewer ← require c.api_key_id 401 "reviewer authentication required"
  check (not (reviewer == 0)) 401 "reviewer authentication required"
  i ← require id 400 "invalid output id"
  s ← require status 400 "invalid JSON"
  decision ← require (review_status s) 400 "invalid review_status"
  o ← fetch (λ db. get_output env.output_fails i db.outputs) 404 "output not found"
  t ← fetch (λ db. select_task env.task_fails o.task_id db.tasks) 500 "internal error"
  check (t.org_unit_id == org) 403 "access denied"
  commit
      (λ db.
        with_outputs db
          (update_output_review env.update_fails env.now i decision reviewer db.outputs))
      500 "internal error"
  attempt (settle o.worker_id org i env decision)
  respond tt
