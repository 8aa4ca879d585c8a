-- ===== src/Api/Workers.antt =====
-- control-plane/internal/api/handlers/workers.go. A request holds what is decoded from it; of the number
-- `capacity_score` the code uses its integer part. Redis holds the workers whose heartbeat has not expired.
pub mod Heartbeats
pub mod Registration
use Prim.Native.String.{len}
use grid_token_util.Prelude.{
  ℕ, ◌+◌, ◌*◌, ◌==◌, String, Bool, true, false, not, ◌&&◌, ◌||◌, Option, none, some, List, [], ◌∷◌,
  if◌then◌else◌, str_eq, ltb, leb, length,
}
use grid_token_util.Prelude.Int.{ℤ, pos, negsuc, leb_ℤ, ltb_ℤ}
use grid_token_util.Prelude.Results.{Result, ok, err}
use grid_token_util.Prelude.Replies.{
  Handler, Reply, answer, refused, ◌>>=◌, ◌>>◌, respond, check, require, fetch, commit, attempt,
}
use grid_token_util.Domain.{
  Uuid, Time, Options, OptionValue, text, number, other_value, Worker, WorkerState, idle, Task,
}
use grid_token_util.Store.Db.{Db}
use grid_token_util.Store.Tasks.{get_assigned_task_for_worker}
use grid_token_util.Store.Workers.{
  register_worker, get_worker as select_worker, update_worker_heartbeat,
  list_workers as select_workers,
}
use grid_token_util.Api.Context.{Context}

-- The database, and the expiry of each worker's heartbeat in Redis.
pub record Backend : Type 0 where
  pub db : Db
  pub heartbeats : List (Uuid × Time)

abbrev pub max_agents : ℕ
max_agents = 50

abbrev pub max_agent_name_len : ℕ
max_agent_name_len = 100

unfoldable pub are_names : List String → Bool
are_names [] = true
are_names (a ∷ rest) = not (len a == 0 || ltb max_agent_name_len (len a)) && are_names rest

pub record RegisterRequest : Type 0 where
  pub hostname_hash : String
  pub hostname : String
  pub agents : List String
  pub capacity_score : ℤ

-- `hash_hex` is the hexadecimal SHA-256, which is not part of the repository.
pub record RegisterEnv : Type 0 where
  pub hash_hex : String → String
  pub now : Time
  pub fresh_id : Uuid
  pub ttl : Time
  pub insert_fails : Bool
  pub redis_fails : Bool

abbrev pub host_of : RegisterEnv → RegisterRequest → Option String
host_of env req =
    if not (str_eq req.hostname_hash "")
    then some req.hostname_hash
    else if str_eq req.hostname ""
    then none
    else some (env.hash_hex req.hostname)

abbrev pub capacity_of : RegisterRequest → ℤ
capacity_of req = elim req.capacity_score [
  | pos n ↦ if n == 0 then pos 100 else pos n
  | negsuc n ↦ negsuc n
]

abbrev pub new_worker : Uuid → String → RegisterRequest → RegisterEnv → Worker
new_worker org host req env = record {
  id = env.fresh_id;
  org_unit_id = org;
  hostname_hash = host;
  agents = req.agents;
  state = idle;
  last_heartbeat_at = some env.now;
  capacity_score = capacity_of req;
  created_at = env.now;
}

abbrev pub with_workers : Backend → Result (List Worker) → Result Backend
with_workers b (ok workers) = ok (record b { db = record b.db { workers = workers } })
with_workers b (err e) = err e

abbrev registered : Result (Uuid × List Worker) → Result (List Worker)
registered (ok r) = ok r.1
registered (err e) = err e

abbrev register_worker_id : Result (Uuid × List Worker) → Result Uuid
register_worker_id (ok r) = ok r.0
register_worker_id (err e) = err e

-- SETEX; a failure is only logged.
unfoldable pub set_heartbeat : Bool → Uuid → Time → Handler Backend (Unit {0})
set_heartbeat fault id expiry b =
    (if fault then b else record b { heartbeats = (id, expiry) ∷ b.heartbeats }, answer tt)

-- `Register` answers the identifier that the row has, which is an older one where the host is known.
unfoldable pub register : Context → Option RegisterRequest → RegisterEnv → Handler Backend Uuid
unfolding register_worker set_heartbeat are_names
register c body env = do
  org ← require c.org_unit_id 401 "missing org context"
  req ← require body 400 "invalid JSON"
  host ← require (host_of env req) 400 "hostname or hostname_hash is required"
  check (leb (length req.agents) max_agents) 400 "agents list exceeds maximum allowed size"
  check (are_names req.agents) 400 "agent name must be between 1 and 100 characters"
  check (leb_ℤ (pos 0) (capacity_of req) && leb_ℤ (capacity_of req) (pos 100)) 400
      "capacity_score must be between 0 and 100"
  id ←
      fetch
        (λ b.
          register_worker_id
            (register_worker env.insert_fails (new_worker org host req env) b.db.workers))
        500 "failed to register worker"
  commit
      (λ b.
        with_workers b (
          registered (register_worker env.insert_fails (new_worker org host req env) b.db.workers)))
      500 "failed to register worker"
  set_heartbeat env.redis_fails id (env.now + env.ttl)
  respond id

unfoldable pub list_workers : Context → Bool → Handler Backend (List Worker × ℕ)
unfolding select_workers
list_workers c fault = do
  org ← require c.org_unit_id 401 "missing org context"
  workers ← fetch (λ b. select_workers fault org b.db.workers) 500 "failed to list workers"
  respond (workers, length workers)

unfoldable pub get_worker : Context → Option Uuid → Bool → Handler Backend Worker
unfolding select_worker
get_worker c id fault = do
  org ← require c.org_unit_id 401 "missing org context"
  i ← require id 400 "invalid worker ID"
  w ← fetch (λ b. select_worker fault i b.db.workers) 404 "worker not found"
  check (w.org_unit_id == org) 403 "access denied"
  respond w

-- The task as the worker's client reads it.
pub record TaskAssignment : Type 0 where
  pub task_id : Uuid
  pub title : String
  pub description : String
  pub task_type : String
  pub ai_agent : String
  pub options : List (String × String)
  pub repo_url : String
  pub branch : String
  pub timeout_sec : ℤ

-- A value of the options that is a text, and one that is a number.
unfoldable pub texts : Options → List (String × String)
texts [] = []
texts ((k, text s) ∷ os) = (k, s) ∷ texts os
texts ((k, v) ∷ os) = texts os

unfoldable pub text_at : String → Options → String
text_at k [] = ""
text_at k ((j, v) ∷ os) =
    let rest = text_at k os in if str_eq j k then elim v [ text s ↦ s | _ ↦ "" ] else rest

unfoldable pub number_at : String → ℤ → Options → ℤ
number_at k d [] = d
number_at k d ((j, v) ∷ os) =
    let rest = number_at k d os in if str_eq j k then elim v [ number n ↦ n | _ ↦ d ] else rest

abbrev pub assignment : Task → TaskAssignment
assignment t = record {
  task_id = t.id;
  title = t.title;
  description = t.description;
  task_type = t.task_type;
  ai_agent = t.ai_agent;
  options = texts t.options;
  repo_url = text_at "repo_url" t.options;
  branch = text_at "branch" t.options;
  timeout_sec = number_at "timeout_sec" (pos 3600) t.options;
}

-- An error of the query is only logged.
abbrev pub assigned : Result (Option Task) → Option TaskAssignment
assigned (ok (some t)) = some (assignment t)
assigned _ = none

pub record HeartbeatEnv : Type 0 where
  pub now : Time
  pub ttl : Time
  pub select_fails : Bool
  pub redis_fails : Bool
  pub update_fails : Bool
  pub assigned_fails : Bool

abbrev agents_or : List String → Option (List String) → List String
agents_or old none = old
agents_or old (some agents) = agents

-- The agents of the body, none of which is too long; `none` is a body without them.
abbrev agents_of : Option (List String) → List String
agents_of none = []
agents_of (some agents) = agents

unfoldable pub heartbeat :
    Context
    → Option Uuid
    → Option (List String)
    → HeartbeatEnv
    → Handler Backend (Option TaskAssignment)
unfolding set_heartbeat are_names texts text_at number_at select_worker update_worker_heartbeat
    get_assigned_task_for_worker
heartbeat c id agents env = do
  org ← require c.org_unit_id 401 "missing org context"
  i ← require id 400 "invalid worker ID"
  w ← fetch (λ b. select_worker env.select_fails i b.db.workers) 404 "worker not found"
  check (w.org_unit_id == org) 403 "access denied"
  check (leb (length (agents_of agents)) max_agents) 400 "agents list exceeds maximum allowed size"
  check (are_names (agents_of agents)) 400 "agent name must be between 1 and 100 characters"
  set_heartbeat env.redis_fails i (env.now + env.ttl)
  commit
      (λ b. with_workers b (
        update_worker_heartbeat env.update_fails env.now i (agents_or w.agents agents)
          b.db.workers))
      500 "failed to update heartbeat"
  task ←
      (λ b. (b, answer (assigned (get_assigned_task_for_worker env.assigned_fails i b.db.tasks))))
  respond task
