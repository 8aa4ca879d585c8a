-- ===== src/Dashboard/Snapshot.antt =====
-- control-plane/internal/dashboard/snapshot.go. The methods of the store that it calls for tasks by state, token usage, points and
-- security events are not in the repository; like the list of the workers, their answers are arguments. A query that fails is
-- only logged.
use grid_token_util.Prelude.{◌≡◌, List, [], ◌∷◌, arith}
use grid_token_util.Prelude.Results.{Result, ok, err}
use mathlib.Core.List.{Permᴰ}
use grid_token_util.Domain.{Time, Worker, Task}
use grid_token_util.Dashboard.Gather.{gather, gather-perm}

pub data Panel : Type 0 where
  workers queued running completed usage earners events : Panel

-- The order of the `go` statements.
abbrev pub panels : List Panel
panels = workers ∷ queued ∷ running ∷ completed ∷ usage ∷ earners ∷ events ∷ []

-- `Usage`, `Entry` and `Event` are rows that are only passed on.
pub record Snapshot (Usage Entry Event : Type 0) : Type 0 where
  pub workers : List Worker
  pub queued_tasks : List Task
  pub running_tasks : List Task
  pub recent_completed : List Task
  pub token_usage : List Usage
  pub leaderboard : List Entry
  pub security_events : List Event
  pub generated_at : Time

-- The answers of the seven queries.
pub record Answers (Usage Entry Event : Type 0) : Type 0 where
  pub worker_rows : Result (List Worker)
  pub queued_rows : Result (List Task)
  pub running_rows : Result (List Task)
  pub completed_rows : Result (List Task)
  pub usage_rows : Result (List Usage)
  pub entry_rows : Result (List Entry)
  pub event_rows : Result (List Event)

-- The rows of an answer, and the ones that were there where it is an error.
abbrev pub rows_or : {A : Type 0} → List A → Result (List A) → List A
rows_or old (err _) = old
rows_or old (ok rows) = rows

module _ {Usage Entry Event : Type 0} where
  -- What the goroutine of a panel leaves behind.
  unfoldable pub finish :
      Answers Usage Entry Event → Panel → Snapshot Usage Entry Event → Snapshot Usage Entry Event
  finish a workers s = record s { workers = rows_or s.workers a.worker_rows }
  finish a queued s = record s { queued_tasks = rows_or s.queued_tasks a.queued_rows }
  finish a running s = record s { running_tasks = rows_or s.running_tasks a.running_rows }
  finish a completed s = record s { recent_completed = rows_or s.recent_completed a.completed_rows }
  finish a usage s = record s { token_usage = rows_or s.token_usage a.usage_rows }
  finish a earners s = record s { leaderboard = rows_or s.leaderboard a.entry_rows }
  finish a events s = record s { security_events = rows_or s.security_events a.event_rows }

  abbrev pub blank : Time → Snapshot Usage Entry Event
  blank now = record {
    workers = [];
    queued_tasks = [];
    running_tasks = [];
    recent_completed = [];
    token_usage = [];
    leaderboard = [];
    security_events = [];
    generated_at = now;
  }

  -- `Build`, where the goroutines finish in the order `ps`.
  unfoldable pub build : Answers Usage Entry Event → List Panel → Time → Snapshot Usage Entry Event
  unfolding gather finish
  build a ps now = gather (finish a) ps (blank now)

  finish_commute :
      (a : Answers Usage Entry Event) (p q : Panel) (s : Snapshot Usage Entry Event)
      → finish a q (finish a p s) ≡ finish a p (finish a q s)
  unfolding finish
  finish_commute a p q s = ground arith

  -- In whatever order the seven goroutines finish, the snapshot has the rows of each query that was answered and no rows for one that
  -- failed.
  pub build-panels :
      (a : Answers Usage Entry Event) (ps : List Panel) (now : Time)
      → Permᴰ ps panels
      → build a ps now ≡ record {
        workers = rows_or [] a.worker_rows;
        queued_tasks = rows_or [] a.queued_rows;
        running_tasks = rows_or [] a.running_rows;
        recent_completed = rows_or [] a.completed_rows;
        token_usage = rows_or [] a.usage_rows;
        leaderboard = rows_or [] a.entry_rows;
        security_events = rows_or [] a.event_rows;
        generated_at = now;
      }
  unfolding build gather finish
  build-panels a ps now perm = gather-perm (finish a) (finish_commute a) perm (blank now)
