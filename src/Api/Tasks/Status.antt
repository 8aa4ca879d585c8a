-- ===== src/Api/Tasks/Status.antt =====
-- The guards of the task handlers of control-plane/internal/api/handlers/tasks.go.
use grid_token_util.Prelude.{
  ℕ, ◌≡◌, refl, String, true, false, Option, some, List, [], ◌∷◌, arith, update, exists, find,
  find-All, All-All, inl, inr, Option-cases,
}
use grid_token_util.Prelude.Replies.{answer, refused}
use grid_token_util.Domain.{Uuid, Task, TaskState}
use grid_token_util.Store.Db.{Db}
use grid_token_util.Store.Tasks.{is_task, set_state}
use grid_token_util.Api.Context.{Context}
use grid_token_util.Api.Tasks.{
  update_task_status, StatusEnv, UpdateTaskStateRequest, is_worker_target,
}

-- A status update that goes through.
pub record Updates (c : Context) (env : StatusEnv) (db : Db) (state : TaskState) (db' : Db)
    : Type 0 where
  pub org : Uuid
  pub worker : Uuid
  pub row : Task
  pub of_org : c.org_unit_id ≡ some org
  pub of_worker : c.worker_id ≡ some (some worker)
  pub found : find (is_task row.id) db.tasks ≡ some row
  pub owned : row.org_unit_id ≡ org
  pub assigned : row.assigned_worker_id ≡ some worker
  pub target : is_worker_target state ≡ true
  pub updated : db' ≡ record db {
    tasks = update (is_task row.id) (set_state env.now state (some worker)) db.tasks;
  }

found_id : (i : Uuid) (tasks : List Task) (t : Task) → find (is_task i) tasks ≡ some t → t.id ≡ i
found_id i tasks t h =
    let (hit, _) = find-All (λ _. Unit {0}) (is_task i) tasks t h (All-All (λ _. tt) tasks) in
    ground arith

find-exists :
    (i : Uuid) (tasks : List Task) (t : Task)
    → find (is_task i) tasks ≡ some t
    → exists (is_task i) tasks ≡ true
find-exists i [] t h = cc
find-exists i (u ∷ us) t h = ground (arith, find-exists i us t)

-- A refused status update changes nothing.
pub update_task_status-refused :
    (c : Context) (id : Option Uuid) (body : Option UpdateTaskStateRequest) (env : StatusEnv)
    (db : Db) {code : ℕ} {msg : String}
    → (update_task_status c id body env db).1 ≡ refused code msg
    → (update_task_status c id body env db).0 ≡ db
unfolding update_task_status
update_task_status-refused c id body env db h = ground arith

module _ (c : Context) (id : Option Uuid) (body : Option UpdateTaskStateRequest) (env : StatusEnv)
    (db : Db) {state : TaskState} (h : (update_task_status c id body env db).1 ≡ answer state) where
  answered_worker : (w : Uuid) × (c.worker_id ≡ some (some w))
  unfolding update_task_status
  answered_worker = ground arith

  answered_id : (i : Uuid) × (id ≡ some i)
  unfolding update_task_status
  answered_id = ground arith

  answered_row : (i : Uuid) → id ≡ some i → (t : Task) × (find (is_task i) db.tasks ≡ some t)
  unfolding update_task_status
  answered_row i e = elim (Option-cases (find (is_task i) db.tasks)) [
    | inl n ↦ absurd (ground arith)
    | inr f ↦ f
  ]

  answered_db :
      (i w : Uuid) (t : Task)
      → id ≡ some i
      → c.worker_id ≡ some (some w)
      → find (is_task i) db.tasks ≡ some t
      → (update_task_status c id body env db).0
        ≡ record db { tasks = update (is_task i) (set_state env.now state (some w)) db.tasks }
  unfolding update_task_status
  answered_db i w t e ew f = ground arith

  -- A status update that is answered comes from a key of a worker, for a task of the key's organisation
  -- that is assigned to this worker, and moves it to `running`, `completed` or `failed`; no other
  -- task and no other table changes.
  pub update_task_status-Updates : Updates c env db state (update_task_status c id body env db).0
  unfolding update_task_status
  update_task_status-Updates =
      let (w, ow) = answered_worker in
      let (i, oi) = answered_id in
      let (t, ot) = answered_row i oi in
      let same = found_id i db.tasks t ot in
      record {
        org = t.org_unit_id;
        worker = w;
        row = t;
        of_org = ground (arith, ow, oi, ot);
        of_worker = ow;
        found = rw same ot;
        owned = refl;
        assigned = ground (arith, ow, oi, ot);
        target = ground (arith, ow, oi, ot);
        updated = rw same (answered_db i w t oi ow ot);
      }

-- A status update by the worker that the task is assigned to, with a key of the task's organisation and
-- one of the three targets, is answered where the database serves it, whatever the task's state was.
pub update_task_status-accepts :
    (c : Context) (i w : Uuid) (req : UpdateTaskStateRequest) (env : StatusEnv) (db : Db) (t : Task)
    → c.org_unit_id ≡ some t.org_unit_id
    → c.worker_id ≡ some (some w)
    → find (is_task i) db.tasks ≡ some t
    → t.assigned_worker_id ≡ some w
    → is_worker_target req.state ≡ true
    → env.select_fails ≡ false
    → env.update_fails ≡ false
    → update_task_status c (some i) (some req) env db ≡ (
      record db { tasks = update (is_task i) (set_state env.now req.state (some w)) db.tasks },
      answer req.state,
    )
unfolding update_task_status
update_task_status-accepts c i w req env db t oc ow f a target s u =
    ground (arith, find-exists i db.tasks t f)
