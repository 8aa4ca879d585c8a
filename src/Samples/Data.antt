-- ===== src/Samples/Data.antt =====
-- Sample rows, environments and contexts.
use grid_token_util.Prelude.{true, false, Option, none, some, [], ◌∷◌}
use grid_token_util.Prelude.Int.{ℤ, pos}
use grid_token_util.Domain.{
  Uuid, Time, Task, TaskState, queued, assigned, Worker, WorkerState, idle, busy, OutputPackage,
  pending,
}
use grid_token_util.Clock.{Zones}
use grid_token_util.Store.Db.{Db}
use grid_token_util.Store.Tasks.{ClaimEnv, Locks}
use grid_token_util.Scheduler.Tick.{TickEnv}
use grid_token_util.Scheduler.Reaper.{ReapEnv}
use grid_token_util.Api.Context.{Context}

abbrev pub task_of : Uuid → TaskState → Option Uuid → ℤ → Time → Task
task_of id state worker priority queued_at = record {
  id = id;
  org_unit_id = 1;
  submitter_id = none;
  title = "t";
  description = "d";
  task_type = "review";
  priority = priority;
  ai_agent = "claude";
  state = state;
  assigned_worker_id = worker;
  queued_at = queued_at;
  assigned_at = none;
  started_at = none;
  completed_at = none;
  failed_at = none;
  error_message = "";
  retry_count = pos 0;
  max_retries = pos 3;
  options = [];
}

abbrev pub worker_of : Uuid → WorkerState → Worker
worker_of id state = record {
  id = id;
  org_unit_id = 1;
  hostname_hash = "h";
  agents = "claude" ∷ [];
  state = state;
  last_heartbeat_at = some 1000;
  capacity_score = pos 80;
  created_at = 0;
}

abbrev pub waiting_low : Task
waiting_low = task_of 10 queued none (pos 1) 5

abbrev pub waiting_high : Task
waiting_high = task_of 11 queued none (pos 9) 7

abbrev pub held : Task
held = task_of 12 assigned (some 21) (pos 5) 3

abbrev pub sample_output : OutputPackage
sample_output = record {
  id = 30;
  task_id = 12;
  worker_id = 21;
  hmac_sha256 = "aa";
  artifacts = [];
  metadata = [];
  review_status = pending;
  reviewer_id = none;
  submitted_at = 9;
  reviewed_at = none;
}

abbrev pub sample_db : Db
sample_db = record {
  tasks = waiting_low ∷ waiting_high ∷ held ∷ [];
  workers = worker_of 20 idle ∷ worker_of 21 busy ∷ [];
  outputs = sample_output ∷ [];
  ledger = [];
  api_keys = [];
}

abbrev pub no_locks : Locks
no_locks = record { row_locked = λ i. false; key_taken = λ k. false }

abbrev pub claim_env : ClaimEnv
claim_env = record {
  now = 2000;
  locks = no_locks;
  begin_fails = false;
  select_fails = false;
  lock_fails = false;
  update_fails = false;
  commit_fails = false;
}

abbrev pub tick_env : TickEnv
tick_env = record {
  now = 2000;
  queue_length = some 2;
  list_fails = false;
  claim_env = λ i. claim_env;
  mark_fails = λ i. false;
}

-- No worker has a heartbeat, long after the last one.
abbrev pub reap_env : ReapEnv
reap_env = record {
  now = 100000000;
  heartbeat_ttl_sec = 30;
  select_fails = false;
  heartbeat = λ w. some false;
  requeue_fails = λ i. false;
  offline_fails = λ i. false;
  has_brownie = true;
  event_id = λ i. i;
  ledger_fails = λ i. false;
}

abbrev pub worker_context : Context
worker_context = record {
  org_unit_id = some 1;
  worker_id = some (some 21);
  api_key_id = some 40;
  scopes = some ("admin" ∷ []);
}

abbrev pub sample_zones : Zones
sample_zones = record { utc = λ t. record { weekday = 1; hour = 10 }; load_location = λ s. none }
