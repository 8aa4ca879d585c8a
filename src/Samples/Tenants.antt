-- ===== src/Samples/Tenants.antt =====
-- Runs of the handlers of organisations, and of a creation of a task that holds a secret.
use grid_token_util.Prelude.{
  Option, find, min, ℕ, ◌≡◌, ◌≢◌, refl, String, false, none, some, List, [], ◌∷◌, if◌then◌else◌,
  str_eq, Memᴰ,
}
use grid_token_util.Prelude.Int.{pos}
use grid_token_util.Prelude.Replies.{answer}
use grid_token_util.Domain.{Uuid, Task}
use grid_token_util.Security.{Bytes}
use grid_token_util.Security.Secrets.{Pattern, high, payload}
use grid_token_util.Store.Orgs.{OrgUnit, PolicyCodec, is_org, with_policy}
use grid_token_util.Queue.Sample.{sample_queue, two_waiting}
use grid_token_util.Api.Tasks.{CreateTaskRequest, CreateEnv, create_task}
use grid_token_util.Api.Tasks.Secrets.{create_task-secret, count_findings}
use grid_token_util.Api.Orgs.{CreateOrgRequest, OrgEnv, update_policy}
use grid_token_util.Api.Orgs.Directory.{
  Request, creates, updates, handle_all, IsDirectory, handle_all-IsDirectory,
}
use grid_token_util.Api.Orgs.Reads.{reads, with_read, update_policy-get}
use grid_token_util.Samples.Data.{sample_db, worker_context}

-- A text whose description is "pw" is written with four bytes, and the pattern finds each text that is not empty.
abbrev bytes_of : String → Bytes
bytes_of s = if str_eq s "t\npw" then 116 ∷ 10 ∷ 112 ∷ 119 ∷ [] else []

abbrev find_all : Bytes → List Bytes
find_all [] = []
find_all (b ∷ bs) = (b ∷ bs) ∷ []

abbrev pattern_pw : Pattern
pattern_pw = record {
  id = "generic_password";
  name = "Generic Password Assignment";
  find_all = find_all;
  severity = high;
  scope = payload;
}

abbrev leaky : CreateTaskRequest
leaky = record {
  title = "t";
  description = "pw";
  task_type = "review";
  priority = pos 0;
  ai_agent = "claude";
  max_retries = pos 0;
  options = none;
}

abbrev scan_env : CreateEnv
scan_env = record {
  findings = λ s. count_findings (some (pattern_pw ∷ [])) (bytes_of s);
  now = 50;
  fresh_id = 13;
  insert_fails = false;
  enqueue_fails = false;
}

create_task-secret_example :
    ((t : Task)
      → (create_task sample_queue worker_context (some leaky) scan_env (sample_db, two_waiting)).1
        ≢ answer t)
    × ((create_task sample_queue worker_context (some leaky) scan_env (sample_db, two_waiting)).0
        ≡ (sample_db, two_waiting))
create_task-secret_example =
    create_task-secret sample_queue worker_context leaky scan_env sample_db two_waiting
      (pattern_pw ∷ []) bytes_of {p = pattern_pw} refl (Memᴰ.head refl) (λ h. cc)

-- Policies are numbers here, the empty one 0. A document from 100 on is read as 100, as a number that a `float64` does not hold.
abbrev policy_codec : PolicyCodec ℕ ℕ ℕ
policy_codec = record {
  marshal_map = λ n. some n;
  marshal_policy = λ n. some n;
  unmarshal = λ n. some (min n 100);
}

abbrev acme : OrgUnit ℕ
acme = record {
  id = 1;
  name = "acme";
  plan_tier = "free";
  policy = 0;
  created_at = 5;
  updated_at = 5;
}

abbrev umbra : OrgUnit ℕ
umbra = record {
  id = 2;
  name = "umbra";
  plan_tier = "pro";
  policy = 7;
  created_at = 9;
  updated_at = 9;
}

abbrev org_env : OrgEnv
org_env = record { now = 20; fresh_id = 2; fails = false }

abbrev asked : CreateOrgRequest
asked = record { name = "umbra"; plan_tier = "" }

abbrev requests : List (Request ℕ)
requests =
    creates (some asked) org_env
    ∷ creates (some asked) org_env
    ∷ updates (some 1) (some 3) org_env
    ∷ []

handle_all-IsDirectory_example : IsDirectory (handle_all policy_codec 0 requests (acme ∷ []))
handle_all-IsDirectory_example = handle_all-IsDirectory policy_codec 0 requests (acme ∷ []) (tt, tt)

update_policy-get_example :
    ((row : OrgUnit ℕ) × (doc : ℕ) × (find (is_org 1) (acme ∷ umbra ∷ []) ≡ some row)
      × (◌≡◌ {A = Option ℕ} (some 103) (some doc))
      × (reads policy_codec 1
            (update_policy policy_codec (some 1) (some 103) org_env (acme ∷ umbra ∷ [])).0
          ≡ with_read policy_codec (with_policy 20 doc row) (policy_codec.unmarshal doc)))
    × ((j : Uuid)
        → 1 ≢ j
        → reads policy_codec j
            (update_policy policy_codec (some 1) (some 103) org_env (acme ∷ umbra ∷ [])).0
          ≡ reads policy_codec j (acme ∷ umbra ∷ []))
unfolding update_policy
update_policy-get_example = update_policy-get policy_codec 1 103 org_env (acme ∷ umbra ∷ []) refl
