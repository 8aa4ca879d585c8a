-- ===== src/Api/Routes.antt =====
-- control-plane/internal/api/router.go: the routes under /api/v1 and the chain of middleware before them. Routing itself is chi,
-- which is not part of the repository. A pattern is what follows the prefix; the path of a request is the list of all its segments.
pub mod Gate
use grid_token_util.Prelude.{
  ℕ, String, Bool, true, false, not, ◌&&◌, ◌||◌, Option, none, some, List, [], ◌∷◌, ◌++◌,
  if◌then◌else◌, str_eq,
}
use grid_token_util.Prelude.Replies.{Reply, answer, refused}
use grid_token_util.Domain.{Uuid, Time, ApiKey}
use grid_token_util.Api.Context.{Context}
use grid_token_util.Api.Auth.{auth, scope_required}
use grid_token_util.Api.Audit.Refusal.{refusal}
use grid_token_util.Security.{Bytes, ArgonParams}
use grid_token_util.Api.RateLimit.{Verdict, served, limited}
use grid_token_util.Api.Audit.{
  Verb, get, post, patch, put, delete, head, options, AuditEvent, audit,
}

pub data Action : Type 0 where
  list_tasks create_task get_task update_task_status : Action
  list_workers get_worker register_worker heartbeat : Action
  create_api_key rotate_api_key revoke_api_key : Action
  stream snapshot : Action
  list_orgs create_org get_org update_policy : Action
  list_audit leaderboard : Action
  submit_output review_output : Action

-- A segment of a pattern: a text or the parameter "id".
pub data Part : Type 0 where
  text : String → Part
  id : Part

pub record Route : Type 0 where
  pub verb : Verb
  pub parts : List Part
  pub scope : Option String
  pub action : Action

abbrev open_route : Verb → List Part → Action → Route
open_route v p a = record { verb = v; parts = p; scope = none; action = a }

abbrev scoped : String → Verb → List Part → Action → Route
scoped s v p a = record { verb = v; parts = p; scope = some s; action = a }

abbrev pub task_routes : List Route
task_routes =
    open_route get (text "tasks" ∷ []) list_tasks
    ∷ scoped "tasks:write" post (text "tasks" ∷ []) create_task
    ∷ open_route get (text "tasks" ∷ id ∷ []) get_task
    ∷ scoped "tasks:write" patch (text "tasks" ∷ id ∷ text "status" ∷ []) update_task_status
    ∷ []

abbrev pub worker_routes : List Route
worker_routes =
    open_route get (text "workers" ∷ []) list_workers
    ∷ open_route get (text "workers" ∷ id ∷ []) get_worker
    ∷ scoped "workers:register" post (text "workers" ∷ text "register" ∷ []) register_worker
    ∷ scoped "workers:heartbeat" post (text "workers" ∷ id ∷ text "heartbeat" ∷ []) heartbeat
    ∷ []

abbrev pub key_routes : List Route
key_routes =
    scoped "keys:write" post (text "api-keys" ∷ []) create_api_key
    ∷ scoped "keys:write" post (text "api-keys" ∷ id ∷ text "rotate" ∷ []) rotate_api_key
    ∷ scoped "keys:write" delete (text "api-keys" ∷ id ∷ []) revoke_api_key
    ∷ []

abbrev pub dashboard_routes : List Route
dashboard_routes =
    open_route get (text "dashboard" ∷ text "stream" ∷ []) stream
    ∷ open_route get (text "dashboard" ∷ text "snapshot" ∷ []) snapshot
    ∷ []

abbrev pub store_routes : List Route
store_routes =
    scoped "admin" get (text "orgs" ∷ []) list_orgs
    ∷ scoped "admin" post (text "orgs" ∷ []) create_org
    ∷ scoped "admin" get (text "orgs" ∷ id ∷ []) get_org
    ∷ scoped "admin" put (text "orgs" ∷ id ∷ text "policy" ∷ []) update_policy
    ∷ open_route get (text "audit" ∷ []) list_audit
    ∷ open_route get (text "brownie" ∷ text "leaderboard" ∷ []) leaderboard
    ∷ []

abbrev pub output_routes : List Route
output_routes =
    scoped "workers:heartbeat" post (text "outputs" ∷ []) submit_output
    ∷ scoped "tasks:write" post (text "outputs" ∷ id ∷ text "review" ∷ []) review_output
    ∷ []

-- `has_store`: the concrete store is given; `has_points`: the engine of the points is.
unfoldable pub routes : Bool → Bool → List Route
routes has_store has_points =
    task_routes
    ++ (worker_routes
        ++ (key_routes
            ++ (dashboard_routes
                ++ (if has_store
                    then store_routes ++ (if has_points then output_routes else [])
                    else []))))

-- The middleware that a matched route has of its own, and its handler, which gives the status.
unfoldable pub run_route : (Action → Context → ℕ) → Context → Route → ℕ × Option Action
run_route handler c r = elim r.scope [
  | none ↦ (handler r.action c, some r.action)
  | some s ↦ elim (scope_required s c) [
    | refused status _ ↦ (status, none)
    | answer d ↦ (handler r.action d, some r.action)
  ]
]

-- What chi finds: a route and its parameter, or the status 404 or 405.
pub data Match : Type 0 where
  unmatched : ℕ → Match
  matched : Route → Option String → Match

-- What becomes of a request: its status, the handler that ran, and the event of the audit log.
pub record Handled : Type 0 where
  pub status : ℕ
  pub ran : Option Action
  pub event : Option AuditEvent

-- The limit of requests and the route: the status and the handler that ran.
unfoldable pub limit_and_route :
    (Action → Context → ℕ) → Context → Verdict → Match → ℕ × Option Action
limit_and_route handler c limited found = (429, none)
limit_and_route handler c served (unmatched code) = (code, none)
limit_and_route handler c served (matched r _) = run_route handler c r

-- The parameter "id" that chi has found by the time of the audit.
unfoldable pub param_of : Verdict → Match → Option String
param_of served (matched _ param) = param
param_of _ _ = none

-- The chain under /api/v1: the authentication, the audit, the limit of requests, the route. The answer of the authentication and the
-- event that it writes where it refuses, the verdict of the limit and what chi finds are given.
unfoldable pub serve_api :
    (Action → Context → ℕ)
    → Uuid
    → Time
    → Reply Context
    → Option AuditEvent
    → Verdict
    → Verb
    → List String
    → Match
    → Handled
serve_api handler event_id now (refused status _) told limit verb path found = record {
  status = status;
  ran = none;
  event = told;
}
serve_api handler event_id now (answer c) told limit verb path found =
    let inner = limit_and_route handler c limit found in
    record {
      status = inner.0;
      ran = inner.1;
      event = audit event_id now c verb path (param_of limit found) inner.0;
    }

-- The chain with the authentication of auth.go.
unfoldable pub serve_request :
    (ArgonParams → Bytes → Bytes → Bytes)
    → (Action → Context → ℕ)
    → Uuid
    → Bool
    → Time
    → List ApiKey
    → String
    → Verdict
    → Verb
    → List String
    → Match
    → Handled
serve_request id_key handler event_id fault now keys header limit verb path found =
    serve_api handler event_id now (auth id_key fault now keys header)
      (refusal id_key event_id fault now keys header) limit verb path found
