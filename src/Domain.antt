-- ===== src/Domain.antt =====
-- control-plane/internal/domain/types.go: the records that the stores, the handlers and the
-- scheduler share. A UUID is its 128-bit number, a time is a number of microseconds.
use grid_token_util.Prelude.{ℕ, String, Option, List}
use grid_token_util.Prelude.Int.{ℤ}

abbrev pub Uuid : Type 0
Uuid = ℕ

abbrev pub Time : Type 0
Time = ℕ

-- A Go `type … string` holds any text: `other_state` stands for a text that no constant names.
pub data WorkerState : Type 0 where
  idle busy paused offline : WorkerState

pub data TaskState : Type 0 where
  queued assigned running completed failed cancelled : TaskState
  other_state : String → TaskState

pub data ReviewStatus : Type 0 where
  pending approved rejected changes_requested : ReviewStatus
  other_status : String → ReviewStatus

-- A value of `map[string]any`. Of a JSON number the code uses its integer part only.
pub data OptionValue : Type 0 where
  text : String → OptionValue
  number : ℤ → OptionValue
  other_value : OptionValue

abbrev pub Options : Type 0
Options = List (String × OptionValue)

pub record Worker : Type 0 where
  pub id : Uuid
  pub org_unit_id : Uuid
  pub hostname_hash : String
  pub agents : List String
  pub state : WorkerState
  pub last_heartbeat_at : Option Time
  pub capacity_score : ℤ
  pub created_at : Time

pub record Task : Type 0 where
  pub id : Uuid
  pub org_unit_id : Uuid
  pub submitter_id : Option Uuid
  pub title : String
  pub description : String
  pub task_type : String
  pub priority : ℤ
  pub ai_agent : String
  pub state : TaskState
  pub assigned_worker_id : Option Uuid
  pub queued_at : Time
  pub assigned_at : Option Time
  pub started_at : Option Time
  pub completed_at : Option Time
  pub failed_at : Option Time
  pub error_message : String
  pub retry_count : ℤ
  pub max_retries : ℤ
  pub options : Options

pub record ApiKey : Type 0 where
  pub id : Uuid
  pub org_unit_id : Uuid
  pub worker_id : Option Uuid
  pub key_hash : String
  pub key_prefix : String
  pub name : String
  pub scopes : List String
  pub created_at : Time
  pub expires_at : Option Time
  pub revoked_at : Option Time
  pub last_used_at : Option Time

pub record ArtifactMeta : Type 0 where
  pub rel_path : String
  pub sha256 : String
  pub size : ℤ

pub record OutputPackage : Type 0 where
  pub id : Uuid
  pub task_id : Uuid
  pub worker_id : Uuid
  pub hmac_sha256 : String
  pub artifacts : List ArtifactMeta
  pub metadata : Options
  pub review_status : ReviewStatus
  pub reviewer_id : Option Uuid
  pub submitted_at : Time
  pub reviewed_at : Option Time

pub record BrownieEvent : Type 0 where
  pub id : Uuid
  pub worker_id : Uuid
  pub org_unit_id : Uuid
  pub points : ℤ
  pub reason : String
  pub reference_id : Option Uuid
  pub created_at : Time

pub record TimeWindow : Type 0 where
  pub day_of_week : List ℤ
  pub start_hour : ℤ
  pub end_hour : ℤ
  pub timezone : String

pub record OrgPolicy : Type 0 where
  pub execution_windows : List TimeWindow
