-- ===== src/Api/Dashboard.antt =====
-- control-plane/internal/api/handlers/dashboard.go. The connection of `Stream` is the hub's; the six queries of `Snapshot` run at once,
-- and each is given whether the database fails it.
pub mod Panels
use grid_token_util.Prelude.{
  ℕ, suc, ◌-◌, ◌==◌, String, Bool, true, false, ◌||◌, Option, none, some, List, [], ◌∷◌,
  if◌then◌else◌, str_eq, select,
}
use grid_token_util.Prelude.Results.{Result, ok, err}
use grid_token_util.Prelude.Replies.{Reply, answer, refused}
use grid_token_util.Domain.{
  Uuid, Time, Worker, WorkerState, Task, TaskState, queued, running, assigned, completed, failed,
}
use grid_token_util.Domain
use grid_token_util.Store.Db.{Db}
use grid_token_util.Store.Tasks.{is_state, list_tasks_by_org}
use grid_token_util.Store.Workers.{is_worker_state, list_workers}
use grid_token_util.Store.Leaderboard.{LeaderboardEntry, get_leaderboard}
use grid_token_util.Api.Context.{Context}
use grid_token_util.Api.Audit.{AuditEvent, AuditAction, auth_failed, query_audit_log, one_day}
use grid_token_util.Dashboard.Gather.{gather}
use grid_token_util.Dashboard.Hub.{Event, Hub, serve_sse}

-- `Stream`: a status is a refusal, before a client joins or by the hub.
unfoldable pub stream : Bool → Uuid → Event → Context → Hub → Hub × Option ℕ
unfolding serve_sse
stream can_flush id connected c h = elim c.org_unit_id [
  | none ↦ (h, some 401)
  | some org ↦ serve_sse can_flush id org connected h
]

pub data Query : Type 0 where
  workers waiting active done earners security : Query

-- In the order of the calls of `run`.
abbrev pub queries : List Query
queries = workers ∷ waiting ∷ active ∷ done ∷ earners ∷ security ∷ []

pub record Snapshot : Type 0 where
  pub generated_at : Time
  pub active_workers : List Worker
  pub queued_tasks : List Task
  pub running_tasks : List Task
  pub recent_completed : List Task
  pub top_brownie_earners : List LeaderboardEntry
  pub recent_security_events : List AuditEvent
  pub error_count : ℕ

-- What the queries read: the tables, the view and the log, and which queries fail.
pub record Source : Type 0 where
  pub db : Db
  pub view : List LeaderboardEntry
  pub log : List AuditEvent
  pub fails : Query → Bool

abbrev pub is_active_worker : Worker → Bool
is_active_worker w =
    is_worker_state w.state WorkerState.idle || is_worker_state w.state WorkerState.busy

abbrev pub is_waiting : Task → Bool
is_waiting t = is_state t.state queued

abbrev pub is_active_task : Task → Bool
is_active_task t = is_state t.state running || is_state t.state assigned

abbrev pub is_done : Task → Bool
is_done t = is_state t.state completed || is_state t.state failed

abbrev pub is_auth_failed : AuditAction → Bool
is_auth_failed auth_failed = true
is_auth_failed _ = false

abbrev pub is_security : AuditEvent → Bool
is_security e = is_auth_failed e.action || str_eq e.resource_type "api_key"

-- What a goroutine leaves: its field, or one error more.
abbrev pub store : {A : Type 0} → Result A → (A → Snapshot) → Snapshot → Snapshot
store (ok a) write s = write a
store (err _) write s = record s { error_count = suc s.error_count }

module _ (src : Source) (org : Uuid) (now : Time) where
  unfoldable pub finish : Query → Snapshot → Snapshot
  finish workers s =
      store (list_workers (src.fails workers) org src.db.workers)
        (λ ws. record s { active_workers = select is_active_worker ws }) s
  finish waiting s =
      store (list_tasks_by_org (src.fails waiting) org 50 0 src.db.tasks)
        (λ ts. record s { queued_tasks = select is_waiting ts }) s
  finish active s =
      store (list_tasks_by_org (src.fails active) org 50 0 src.db.tasks)
        (λ ts. record s { running_tasks = select is_active_task ts }) s
  finish done s =
      store (list_tasks_by_org (src.fails done) org 20 0 src.db.tasks)
        (λ ts. record s { recent_completed = select is_done ts }) s
  finish earners s =
      store (get_leaderboard (src.fails earners) org 10 src.view)
        (λ es. record s { top_brownie_earners = es }) s
  finish security s =
      store (query_audit_log (src.fails security) org (now - one_day) now 20 0 src.log)
        (λ es. record s { recent_security_events = select is_security es }) s

abbrev pub blank : Time → Snapshot
blank now = record {
  generated_at = now;
  active_workers = [];
  queued_tasks = [];
  running_tasks = [];
  recent_completed = [];
  top_brownie_earners = [];
  recent_security_events = [];
  error_count = 0;
}

-- `Snapshot`, where the goroutines finish in the order `qs`: it answers 200 whatever fails.
unfoldable pub snapshot : Source → Time → Context → List Query → Reply Snapshot
snapshot src now c qs = elim c.org_unit_id [
  | none ↦ refused 401 "missing org context"
  | some org ↦ answer (gather (finish src org now) qs (blank now))
]
