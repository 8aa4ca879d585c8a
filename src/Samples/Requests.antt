-- ===== src/Samples/Requests.antt =====
-- Runs of the handlers of the API, and of the keys behind them.
use grid_token_util.Prelude.{
  ◌≡◌, ◌≢◌, refl, ◌↔◌, ◌++◌, String, true, false, none, some, [], ◌∷◌, arith, find,
}
use grid_token_util.Prelude.Int.{pos}
use grid_token_util.Domain.{Uuid, Task, running, ApiKey, OutputPackage}
use grid_token_util.Store.Tasks.{is_task}
use grid_token_util.Store.Outputs.{is_output}
use grid_token_util.Store.ApiKeys.{revoke_api_key}
use grid_token_util.Security.{
  Bytes, ArgonParams, default_argon_params, key_prefix, generate_api_key_with_params,
  verify_api_key,
}
use grid_token_util.Security.Keys.{verify-generate}
use grid_token_util.Queue.Sample.{sample_queue, two_waiting}
use grid_token_util.Api.Context.{Context}
use grid_token_util.Api.Tasks.{
  CreateTaskRequest, CreateEnv, create_task, new_task, update_task_status, StatusEnv,
  UpdateTaskStateRequest,
}
use grid_token_util.Api.Tasks.Status.{Updates, update_task_status-Updates}
use grid_token_util.Api.Tasks.Create.{Creates, create_task-Creates}
use grid_token_util.Api.Outputs.{SubmitRequest, SubmitEnv, submit, ReviewEnv, review, review_status}
use grid_token_util.Api.Outputs.Submissions.{Submits, submit-Submits}
use grid_token_util.Api.Outputs.Reviews.{review-isolated}
use grid_token_util.Store.Db.{Db}
use grid_token_util.Store.ApiKeys.{rotated}
use grid_token_util.Api.Keys.{Generated, KeyEnv, rotate_key}
use grid_token_util.Api.Keys.Rotation.{Rotates, rotate_key-isolated}
use grid_token_util.Api.Auth.{auth}
use grid_token_util.Api.Auth.Access.{Admits, auth-Admits, auth-revoked}
use grid_token_util.Api.RateLimit.{limited, rate_limit}
use grid_token_util.Api.RateLimit.Drip.{drip, at, drip-limited}
use grid_token_util.Api.RateLimit.Sample.{sample_counters}
use grid_token_util.Samples.Data.{sample_db, worker_context}

abbrev status_env : StatusEnv
status_env = record { now = 3000; select_fails = false; update_fails = false }

abbrev to_running : UpdateTaskStateRequest
to_running = record { state = running; error_message = none }

update_task_status-Updates_example :
    Updates worker_context status_env sample_db running
      (update_task_status worker_context (some 12) (some to_running) status_env sample_db).0
unfolding update_task_status
update_task_status-Updates_example =
    update_task_status-Updates worker_context (some 12) (some to_running) status_env sample_db refl

abbrev creation : CreateTaskRequest
creation = record {
  title = "t";
  description = "d";
  task_type = "review";
  priority = pos 0;
  ai_agent = "claude";
  max_retries = pos 0;
  options = none;
}

abbrev create_env : CreateEnv
create_env = record {
  findings = λ s. some 0;
  now = 50;
  fresh_id = 13;
  insert_fails = false;
  enqueue_fails = false;
}

abbrev created : Task
created = new_task worker_context 1 create_env creation

create_task-Creates_example :
    Creates sample_queue worker_context creation create_env sample_db two_waiting created
      (create_task sample_queue worker_context
        (some creation)
        create_env
        (sample_db, two_waiting)).0.0
      (create_task sample_queue worker_context
        (some creation)
        create_env
        (sample_db, two_waiting)).0.1
unfolding create_task
create_task-Creates_example =
    create_task-Creates sample_queue worker_context creation create_env sample_db two_waiting refl

abbrev submission : SubmitRequest
submission = record { task_id = some 12; hmac_sha256 = "aa"; artifacts = []; metadata = [] }

abbrev submit_env : SubmitEnv
submit_env = record {
  now = 60;
  fresh_id = 31;
  fresh_entry = 50;
  insert_fails = false;
  ledger_fails = false;
}

submit-Submits_example :
    (req : SubmitRequest) × (worker : Uuid) × (task : Uuid) × (some submission ≡ some req)
    × Submits worker_context req "aa" submit_env sample_db worker task
        (submit worker_context (some submission) "aa" submit_env sample_db).0
unfolding submit
submit-Submits_example =
    submit-Submits worker_context (some submission) "aa" submit_env sample_db refl

abbrev review_env : ReviewEnv
review_env = record {
  now = 70;
  fresh_entry = 51;
  output_fails = false;
  task_fails = false;
  update_fails = false;
  ledger_fails = false;
}

review-isolated_example :
    (o : OutputPackage) × (t : Task) × (find (is_output 30) sample_db.outputs ≡ some o)
    × (find (is_task o.task_id) sample_db.tasks ≡ some t)
    × (some 1 ≡ some t.org_unit_id)
    × (review_status "approved" ≢ none)
unfolding review
review-isolated_example = review-isolated worker_context 30 "approved" review_env sample_db refl

-- A key derivation that gives one byte of the text's length.
abbrev derive : ArgonParams → Bytes → Bytes → Bytes
derive p s t = 7 ∷ []

verify-generate_example :
    (verify_api_key derive
        (generate_api_key_with_params derive default_argon_params (65 ∷ []) (1 ∷ [])).0
        (generate_api_key_with_params derive default_argon_params (65 ∷ []) (1 ∷ [])).2
      ≡ true)
    ↔ (derive default_argon_params (1 ∷ []) (key_prefix ++ 65 ∷ [])
        ≡ derive default_argon_params (1 ∷ []) (key_prefix ++ 65 ∷ []))
verify-generate_example =
    verify-generate derive default_argon_params (65 ∷ []) (1 ∷ []) (omega arith, tt)
      (λ q s t. (omega arith, tt))

abbrev key : ApiKey
key = record {
  id = 40;
  org_unit_id = 1;
  worker_id = some 21;
  key_hash = "01$07";
  key_prefix = "gw_abcdefgh";
  name = "k";
  scopes = "admin" ∷ [];
  created_at = 0;
  expires_at = none;
  revoked_at = none;
  last_used_at = none;
}

abbrev header : String
header = "bearer gw_abcdefghij"

auth-Admits_example : Admits derive 100 (key ∷ []) header worker_context
unfolding auth
auth-Admits_example = auth-Admits derive false 100 (key ∷ []) header worker_context refl

-- A second key with the same prefix and hash.
abbrev other_key : ApiKey
other_key = record key { id = 41 }

abbrev other_context : Context
other_context = record worker_context { api_key_id = some 41 }

auth-revoked_example : other_context.api_key_id ≢ some 40
unfolding auth revoke_api_key
auth-revoked_example =
    auth-revoked derive false false 100 110 40 1 (key ∷ other_key ∷ [])
      (record key { revoked_at = some 100 } ∷ other_key ∷ []) header other_context refl refl refl

abbrev generated : Generated
generated = record { plaintext = "gw_x"; prefix = "gw_ijklmnop"; hash = "02$08" }

abbrev key_env : KeyEnv
key_env = record { now = 120; generated = some generated; fresh_id = 42; fault = false }

-- A revoked key of the organisation, and a key of another one.
abbrev revoked_key : ApiKey
revoked_key = record key { revoked_at = some 100 }

abbrev foreign_key : ApiKey
foreign_key = record key { id = 43; org_unit_id = 2 }

abbrev keys_db : Db
keys_db = record sample_db { api_keys = revoked_key ∷ foreign_key ∷ [] }

rotate_key-isolated_example :
    (◌≡◌ {A = String} "gw_x" generated.plaintext)
    × Rotates 40 1 key_env generated keys_db.api_keys
        (rotate_key worker_context (some 40) key_env keys_db).0.api_keys
        (rotated 120 "02$08" "gw_ijklmnop" revoked_key)
unfolding rotate_key
rotate_key-isolated_example =
    rotate_key-isolated worker_context 40 key_env keys_db 1 generated refl refl refl

drip-limited_example :
    (rate_limit sample_counters 2 false
      (some 1)
      (at sample_counters 2 1 (1000000 ∷ 50000000 ∷ []) 0)
      (drip sample_counters 2 1 (1000000 ∷ 50000000 ∷ []) 0 (λ k. (0, none)))).1
    ≡ limited
drip-limited_example =
    drip-limited sample_counters 2 1 (1000000 ∷ 50000000 ∷ []) 0 (λ k. (0, none))
      (omega arith, (omega arith, tt)) (omega arith)
