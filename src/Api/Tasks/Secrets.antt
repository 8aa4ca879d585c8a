-- ===== src/Api/Tasks/Secrets.antt =====
-- The creation of tasks with the scanner of secrets: handlers/tasks.go calls ScanText of security/secretscan.go in
-- control-plane/internal.
use grid_token_util.Prelude.{
  ℕ, ◌≡◌, ◌≢◌, String, Option, none, some, inl, inr, List, [], length, Memᴰ, Memᴰ-All, ap, ◌∙◌, sym,
  some-injective,
}
use grid_token_util.Prelude.Replies.{Reply-cases, answer}
use grid_token_util.Store.Db.{Db}
use grid_token_util.Domain.{Task}
use grid_token_util.Queue.{SortedSet}
use grid_token_util.Security.{Bytes}
use grid_token_util.Security.Secrets.{Pattern, scan_text, scan_patterns}
use grid_token_util.Security.Secrets.Matches.{clean→All}
use grid_token_util.Api.Context.{Context}
use grid_token_util.Api.Tasks.{CreateTaskRequest, CreateEnv, create_task, scanned_text}
use grid_token_util.Api.Tasks.Create.{create_task-Creates, create_task-refused}

-- The number of findings that the handler reads.
unfoldable pub count_findings : Option (List Pattern) → Bytes → Option ℕ
count_findings scanner text = elim (scan_text scanner text) [
  | none ↦ none
  | some fs ↦ some (length fs)
]

module _ (r : SortedSet) where
  open r use {Carrier}

  refuses :
      (c : Context) (body : Option CreateTaskRequest) (env : CreateEnv) (db : Db) (queue : Carrier)
      → ((t : Task) → (create_task r c body env (db, queue)).1 ≢ answer t)
      → (create_task r c body env (db, queue)).0 ≡ (db, queue)
  refuses c body env db queue unanswered =
      elim (Reply-cases (create_task r c body env (db, queue)).1) [
        | inl (t, h) ↦ elim (unanswered t h) [ ]
        | inr (code, msg, h) ↦ create_task-refused r c body env db queue h
      ]

  -- Where a pattern of the scanner occurs in the title and the description of a task, the creation is not answered, and changes
  -- neither the tables nor the queue.
  pub create_task-secret :
      (c : Context) (req : CreateTaskRequest) (env : CreateEnv) (db : Db) (queue : Carrier)
      (patterns : List Pattern) (bytes_of : String → Bytes) {p : Pattern}
      → env.findings ≡ (λ s. count_findings (some patterns) (bytes_of s))
      → Memᴰ p patterns
      → p.find_all (bytes_of (scanned_text req)) ≢ []
      → ((t : Task) → (create_task r c (some req) env (db, queue)).1 ≢ answer t)
        × ((create_task r c (some req) env (db, queue)).0 ≡ (db, queue))
  unfolding count_findings scan_text
  create_task-secret c req env db queue patterns bytes_of {p} scanned m occurs =
      (unanswered, refuses c (some req) env db queue unanswered)
    where
      unanswered : (t : Task) → (create_task r c (some req) env (db, queue)).1 ≢ answer t
      unanswered t h = occurs (
          Memᴰ-All (λ (q : Pattern). q.find_all (bytes_of (scanned_text req)) ≡ []) patterns m
            (clean→All patterns (bytes_of (scanned_text req)) none_found))
        where
          none_found : length (scan_patterns patterns (bytes_of (scanned_text req))) ≡ 0
          none_found = some-injective _ _ (
              ap (λ f. f (scanned_text req)) (sym scanned)
              ∙ (create_task-Creates r c req env db queue h).clean)
