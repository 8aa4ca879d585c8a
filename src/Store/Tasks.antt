-- ===== src/Store/Tasks.antt =====
-- control-plane/internal/store/postgres/tasks.go over the rows of the table `tasks`, and the
-- transaction of db.go that `ClaimNextTask` runs in.
pub mod Claim
pub mod Rows
use grid_token_util.Prelude.{
  ℕ, ◌/◌, ◌%◌, ◌^◌, String, Bool, true, false, not, ◌&&◌, ◌||◌, ◌==◌, Option, none, some, List, [],
  ◌∷◌, ◌++◌, if◌then◌else◌, str_eq, ltb, select, update, exists, find, take, drop,
}
use grid_token_util.Prelude.Int.{ltb_ℤ}
use grid_token_util.Prelude.Order.{first, sort}
use grid_token_util.Prelude.Results.{
  Result, ok, err, not_found, query_failed, conflict, ◌>>=◌, ◌>>◌, refuse_if,
}
use grid_token_util.Domain.{
  Uuid, Time, Task, TaskState, queued, assigned, running, completed, failed, Worker,
}

abbrev pub is_state : TaskState → TaskState → Bool
is_state queued queued = true
is_state assigned assigned = true
is_state running running = true
is_state completed completed = true
is_state failed failed = true
is_state TaskState.cancelled TaskState.cancelled = true
is_state (TaskState.other_state s) (TaskState.other_state t) = str_eq s t
is_state _ _ = false

-- `= ANY($1)`, and `hasAgent` of the matcher.
abbrev pub has_agent : List String → String → Bool
has_agent [] agent = false
has_agent (a ∷ rest) agent = str_eq a agent || has_agent rest agent

abbrev pub is_task : Uuid → Task → Bool
is_task id t = t.id == id

-- SQL's `assigned_worker_id = $1`, which is not true of a NULL.
abbrev pub is_worker : Uuid → Option Uuid → Bool
is_worker id none = false
is_worker id (some w) = w == id

-- The primary key is `(id, queued_at)`.
unfoldable pub create_task : Bool → Task → List Task → Result (List Task)
create_task fault t tasks = do
  refuse_if fault query_failed
  refuse_if (exists (λ u. u.id == t.id && u.queued_at == t.queued_at) tasks) conflict
  ok (tasks ++ t ∷ [])

unfoldable pub get_task : Bool → Uuid → List Task → Result Task
get_task fault id tasks = do
  refuse_if fault query_failed
  elim (find (is_task id) tasks) [ none ↦ err not_found | some t ↦ ok t ]

abbrev coalesce : Option Uuid → Option Uuid → Option Uuid
coalesce none old = old
coalesce (some w) old = some w

-- The `SET` list of `UpdateTaskState`.
unfoldable pub set_state : Time → TaskState → Option Uuid → Task → Task
set_state now state worker t = record t {
  state = state;
  assigned_worker_id = coalesce worker t.assigned_worker_id;
  assigned_at = if is_state state assigned then some now else t.assigned_at;
  started_at = if is_state state running then some now else t.started_at;
  completed_at = if is_state state completed then some now else t.completed_at;
  failed_at = if is_state state failed then some now else t.failed_at;
}

unfoldable pub update_task_state :
    Bool → Time → Uuid → TaskState → Option Uuid → List Task → Result (List Task)
update_task_state fault now id state worker tasks = do
  refuse_if fault query_failed
  refuse_if (not (exists (is_task id) tasks)) not_found
  ok (update (is_task id) (set_state now state worker) tasks)

-- `ORDER BY queued_at DESC`.
abbrev pub newer : Task → Task → Bool
newer a b = ltb b.queued_at a.queued_at

unfoldable pub list_tasks_by_org : Bool → Uuid → ℕ → ℕ → List Task → Result (List Task)
list_tasks_by_org fault org limit offset tasks = do
  refuse_if fault query_failed
  ok (take limit (drop offset (sort newer (select (λ t. t.org_unit_id == org) tasks))))

-- `ORDER BY priority DESC, queued_at ASC`.
abbrev pub claimed_before : Task → Task → Bool
claimed_before a b =
    ltb_ℤ b.priority a.priority
    || (not (ltb_ℤ a.priority b.priority) && ltb a.queued_at b.queued_at)

-- What other transactions hold: the locked rows, and the advisory locks by their keys.
pub record Locks : Type 0 where
  pub row_locked : Uuid → Bool
  pub key_taken : ℕ → Bool

-- The first eight bytes of the UUID, as the bit pattern of an `int64`.
unfoldable pub lock_key : Uuid → ℕ
lock_key id = id / 2 ^ 64 % 2 ^ 64

-- What the database and the other transactions do to one claim.
pub record ClaimEnv : Type 0 where
  pub now : Time
  pub locks : Locks
  pub begin_fails : Bool
  pub select_fails : Bool
  pub lock_fails : Bool
  pub update_fails : Bool
  pub commit_fails : Bool

abbrev pub is_claimable : Locks → List String → Task → Bool
is_claimable locks agents t =
    is_state t.state queued && has_agent agents t.ai_agent && not (locks.row_locked t.id)

unfoldable pub claim : Time → Uuid → Task → Task
claim now worker t = record t {
  state = assigned;
  assigned_worker_id = some worker;
  assigned_at = some now;
}

claim_row : ClaimEnv → Uuid → List Task → Task → Result (Option Task × List Task)
unfolding lock_key claim
claim_row env worker tasks t = do
  refuse_if env.lock_fails query_failed
  elim (env.locks.key_taken (lock_key t.id)) [
    | true ↦ ok (none, tasks)
    | false ↦ do
      refuse_if env.update_fails query_failed
      ok (some (claim env.now worker t), update (is_task t.id) (claim env.now worker) tasks)
  ]

unfoldable pub claim_next_task :
    ClaimEnv → Uuid → List String → List Task → Result (Option Task × List Task)
unfolding claim_row
claim_next_task env worker agents tasks = do
  refuse_if env.select_fails query_failed
  elim (first claimed_before (select (is_claimable env.locks agents) tasks)) [
    | none ↦ ok (none, tasks)
    | some t ↦ claim_row env worker tasks t
  ]

-- `WithTx` around `ClaimNextTask`: an error of any step rolls the whole claim back.
unfoldable pub claim_in_tx :
    ClaimEnv → Uuid → List String → List Task → Result (Option Task × List Task)
unfolding claim_next_task
claim_in_tx env worker agents tasks = do
  refuse_if env.begin_fails query_failed
  r ← claim_next_task env worker agents tasks
  refuse_if env.commit_fails query_failed
  ok r

-- `ORDER BY assigned_at ASC`, where NULL comes last.
abbrev pub assigned_before : Task → Task → Bool
assigned_before a b = elim a.assigned_at [
  | none ↦ false
  | some s ↦ elim b.assigned_at [ none ↦ true | some t ↦ ltb s t ]
]

unfoldable pub get_assigned_task_for_worker : Bool → Uuid → List Task → Result (Option Task)
get_assigned_task_for_worker fault worker tasks = do
  refuse_if fault query_failed
  ok (
      first assigned_before
        (select (λ t. is_worker worker t.assigned_worker_id && is_state t.state assigned) tasks))

-- The worker has no heartbeat since the deadline.
abbrev pub is_silent : Time → Worker → Bool
is_silent deadline w = elim w.last_heartbeat_at [ none ↦ true | some t ↦ ltb t deadline ]

-- The `JOIN workers w ON w.id = t.assigned_worker_id` and the `WHERE`; worker ids are unique.
unfoldable pub is_stale : Time → List Worker → Task → Bool
is_stale deadline workers t =
    (is_state t.state assigned || is_state t.state running)
    && exists (λ w. is_worker w.id t.assigned_worker_id && is_silent deadline w) workers

unfoldable pub get_stale_tasks : Bool → Time → List Worker → List Task → Result (List Task)
get_stale_tasks fault deadline workers tasks = do
  refuse_if fault query_failed
  ok (select (is_stale deadline workers) tasks)
