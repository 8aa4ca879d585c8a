-- ===== src/Api/Tasks/Create.antt =====
-- The creation and the reading of tasks in control-plane/internal/api/handlers/tasks.go.
use grid_token_util.Prelude.{
  false, ℕ, ◌≡◌, ◌≢◌, String, Bool, Option, none, some, [], ◌∷◌, ◌++◌, arith, find,
}
use grid_token_util.Prelude.Int.{pos}
use grid_token_util.Prelude.Replies.{answer, refused}
use grid_token_util.Domain.{Uuid, Task, queued}
use grid_token_util.Store.Db.{Db}
use grid_token_util.Store.Tasks.{is_task}
use grid_token_util.Queue.{SortedSet, score, enqueue}
use grid_token_util.Api.Context.{Context}
use grid_token_util.Api.Tasks.{CreateTaskRequest, CreateEnv, create_task, get_task, scanned_text}

module _ (r : SortedSet) where
  open r use {Carrier, score_of, score_of-zadd}

  -- A creation that goes through.
  pub record Creates (c : Context) (req : CreateTaskRequest) (env : CreateEnv) (db : Db)
      (queue : Carrier) (t : Task) (db' : Db) (queue' : Carrier) : Type 0 where
    pub of_org : c.org_unit_id ≡ some t.org_unit_id
    pub clean : env.findings (scanned_text req) ≡ some 0
    pub waits : t.state ≡ queued
    pub unassigned : t.assigned_worker_id ≡ none
    pub priority : t.priority ≢ pos 0
    pub retries : t.max_retries ≢ pos 0
    pub added : db' ≡ record db { tasks = db.tasks ++ t ∷ [] }
    pub offered :
        env.enqueue_fails ≡ false → score_of queue' t.id ≡ some (score r t.priority t.queued_at)

  -- A creation that is answered is of the key's organisation and of a text in which the scanner finds nothing;
  -- it adds one task that is in the queue, assigned to no worker, with a priority and a number of retries that
  -- are not zero, and changes no other table. The task waits in Redis with the score of its priority and time,
  -- where Redis answers.
  pub create_task-Creates :
      (c : Context) (req : CreateTaskRequest) (env : CreateEnv) (db : Db) (queue : Carrier)
      {t : Task}
      → (create_task r c (some req) env (db, queue)).1 ≡ answer t
      → Creates c req env db queue t
          (create_task r c (some req) env (db, queue)).0.0
          (create_task r c (some req) env (db, queue)).0.1
  unfolding create_task enqueue
  create_task-Creates c req env db queue {t} h = record {
    of_org = ground arith;
    clean = ground arith;
    waits = ground arith;
    unassigned = ground arith;
    priority = ground arith;
    retries = ground arith;
    added = ground arith;
    offered =
        λ f. ground (arith, h, f, score_of-zadd queue t.id t.id (score r t.priority t.queued_at));
  }

  -- A creation that is refused changes nothing.
  pub create_task-refused :
      (c : Context) (body : Option CreateTaskRequest) (env : CreateEnv) (db : Db) (queue : Carrier)
      {code : ℕ} {msg : String}
      → (create_task r c body env (db, queue)).1 ≡ refused code msg
      → (create_task r c body env (db, queue)).0 ≡ (db, queue)
  unfolding create_task
  create_task-refused c body env db queue h = ground arith

-- A task is read by its own organisation alone, as it stands in the table, and nothing changes.
pub get_task-isolated :
    (c : Context) (i : Uuid) (fault : Bool) (db : Db) {t : Task}
    → (get_task c (some i) fault db).1 ≡ answer t
    → (c.org_unit_id ≡ some t.org_unit_id)
      × (find (is_task i) db.tasks ≡ some t)
      × ((get_task c (some i) fault db).0 ≡ db)
unfolding get_task
get_task-isolated c i fault db h = (ground arith, ground arith, ground arith)
