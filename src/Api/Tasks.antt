-- ===== src/Api/Tasks.antt =====
-- control-plane/internal/api/handlers/tasks.go. A request holds what is decoded from it: `none` is a
-- path that `uuid.Parse` or a body that the JSON decoder refuses. The scanner's findings, the queue
-- and the clock are arguments.
pub mod Status
pub mod Create
pub mod Secrets
use Prim.Native.String.{◌++◌ as str_append}
use grid_token_util.Prelude.{
  ℕ, zero, suc, ◌==◌, String, Bool, true, false, not, ◌&&◌, ◌||◌, Option, none, some, List, [], ◌∷◌,
  ◌++◌, if◌then◌else◌, str_eq, leb, ltb,
}
use grid_token_util.Prelude.Int.{ℤ, pos, negsuc}
use grid_token_util.Prelude.Results.{after, Result, ok, err}
use grid_token_util.Prelude.Results
use grid_token_util.Prelude.Replies.{
  Handler, Reply, answer, refused, ◌>>=◌, ◌>>◌, respond, check, require, fetch, commit, attempt,
}
use grid_token_util.Domain.{
  Uuid, Time, Options, Task, TaskState, queued, running, completed, failed,
}
use grid_token_util.Store.Db.{Db}
use grid_token_util.Store.Tasks.{
  create_task as insert_task, get_task as select_task, update_task_state, list_tasks_by_org,
  is_worker,
}
use grid_token_util.Queue.{SortedSet, enqueue}
use grid_token_util.Api.Context.{Context}

pub record CreateTaskRequest : Type 0 where
  pub title : String
  pub description : String
  pub task_type : String
  pub priority : ℤ
  pub ai_agent : String
  pub max_retries : ℤ
  pub options : Option Options

-- What the scanner, the clock, `uuid.New` and the database give to one creation. `findings` is the number of
-- findings in a text, `none` where the scan fails.
pub record CreateEnv : Type 0 where
  pub findings : String → Option ℕ
  pub now : Time
  pub fresh_id : Uuid
  pub insert_fails : Bool
  pub enqueue_fails : Bool

abbrev is_empty : String → Bool
is_empty s = str_eq s ""

abbrev or_default : ℤ → ℤ → ℤ
or_default (pos zero) d = d
or_default n d = n

abbrev or_no_options : Option Options → Options
or_no_options none = []
or_no_options (some o) = o

-- `Title + "\n" + Description`.
abbrev pub scanned_text : CreateTaskRequest → String
scanned_text req = str_append req.title (str_append "\n" req.description)

-- A missing worker and a key of no worker leave the submitter empty.
abbrev submitter : Option (Option Uuid) → Option Uuid
submitter none = none
submitter (some w) = w

unfoldable pub new_task : Context → Uuid → CreateEnv → CreateTaskRequest → Task
new_task c org env req = record {
  id = env.fresh_id;
  org_unit_id = org;
  submitter_id = submitter c.worker_id;
  title = req.title;
  description = req.description;
  task_type = req.task_type;
  priority = or_default req.priority (pos 5);
  ai_agent = req.ai_agent;
  state = queued;
  assigned_worker_id = none;
  queued_at = env.now;
  assigned_at = none;
  started_at = none;
  completed_at = none;
  failed_at = none;
  error_message = "";
  retry_count = pos 0;
  max_retries = or_default req.max_retries (pos 3);
  options = or_no_options req.options;
}

abbrev insert {ℓ} : {Q : Type ℓ} → Bool → Task → Db × Q → Result (Db × Q)
insert fault t (db, queue) = elim (insert_task fault t db.tasks) [
  | ok tasks ↦ ok (record db { tasks = tasks }, queue)
  | err e ↦ err e
]

module _ (r : SortedSet) where
  open r use {Carrier}

  -- `Enqueue`, whose error is only logged.
  abbrev offer : Bool → Task → Db × Carrier → Db × Carrier
  offer fault t (db, queue) = (db, after queue (enqueue r fault t.id t.priority t.queued_at queue))

  unfoldable pub create_task :
      Context → Option CreateTaskRequest → CreateEnv → Handler (Db × Carrier) Task
  unfolding new_task insert_task enqueue
  create_task c body env = do
    org ← require c.org_unit_id 401 "missing org context"
    req ← require body 400 "invalid JSON"
    check
        (not (
          is_empty req.title
          || is_empty req.description
          || is_empty req.ai_agent
          || is_empty req.task_type))
        400 "title, description, ai_agent, and task_type are required"
    n ← require (env.findings (scanned_text req)) 500 "internal error"
    check (n == 0) 422 "task payload contains potential secrets"
    commit (insert env.insert_fails (new_task c org env req)) 500 "failed to create task"
    (λ s. (offer env.enqueue_fails (new_task c org env req) s, answer tt))
    respond (new_task c org env req)

unfoldable pub get_task : Context → Option Uuid → Bool → Handler Db Task
unfolding select_task
get_task c id fault = do
  org ← require c.org_unit_id 401 "missing org context"
  i ← require id 400 "invalid task ID"
  t ← fetch (λ db. select_task fault i db.tasks) 404 "task not found"
  check (t.org_unit_id == org) 403 "access denied"
  respond t

-- `validateStateTransition`.
abbrev pub is_worker_target : TaskState → Bool
is_worker_target running = true
is_worker_target completed = true
is_worker_target failed = true
is_worker_target _ = false

pub record StatusEnv : Type 0 where
  pub now : Time
  pub select_fails : Bool
  pub update_fails : Bool

pub record UpdateTaskStateRequest : Type 0 where
  pub state : TaskState
  pub error_message : Option String

abbrev set : Bool → Time → Uuid → TaskState → Uuid → Db → Result Db
set fault now id state worker db =
    elim (update_task_state fault now id state (some worker) db.tasks) [
      | ok tasks ↦ ok (record db { tasks = tasks })
      | err e ↦ err e
    ]

-- A key that is bound to no worker is refused as one without a worker.
abbrev bound_worker : Option (Option Uuid) → Option Uuid
bound_worker none = none
bound_worker (some w) = w

unfoldable pub update_task_status :
    Context → Option Uuid → Option UpdateTaskStateRequest → StatusEnv → Handler Db TaskState
unfolding select_task update_task_state
update_task_status c id body env = do
  org ← require c.org_unit_id 401 "missing org context"
  worker ← require (bound_worker c.worker_id) 403 "worker authentication required"
  i ← require id 400 "invalid task ID"
  req ← require body 400 "invalid JSON"
  check (is_worker_target req.state) 400
      "invalid state transition; allowed: running, completed, failed"
  t ← fetch (λ db. select_task env.select_fails i db.tasks) 404 "task not found"
  check (t.org_unit_id == org) 403 "access denied"
  check (is_worker worker t.assigned_worker_id) 403 "task not assigned to this worker"
  commit (set env.update_fails env.now i req.state worker) 500 "failed to update task state"
  respond req.state

-- The page that the query parameters ask for; `none` is a parameter that is absent or no number.
abbrev page_limit : Option ℤ → ℕ
page_limit (some (pos (suc n))) = if leb (suc n) 100 then suc n else 20
page_limit _ = 20

abbrev page_offset : Option ℤ → ℕ
page_offset (some (pos n)) = n
page_offset _ = 0

unfoldable pub list_tasks : Context → Option ℤ → Option ℤ → Bool → Handler Db (List Task × ℕ × ℕ)
unfolding list_tasks_by_org
list_tasks c limit offset fault = do
  org ← require c.org_unit_id 401 "missing org context"
  tasks ←
      fetch (λ db. list_tasks_by_org fault org (page_limit limit) (page_offset offset) db.tasks) 500
        "failed to list tasks"
  respond (tasks, page_limit limit, page_offset offset)
