-- ===== src/Api/Workers/Heartbeats.antt =====
-- The heartbeats of control-plane/internal/api/handlers/workers.go.
use grid_token_util.Prelude.{
  ℕ, ◌≡◌, refl, String, Bool, true, ◌&&◌, Option, none, some, List, arith, All, All-All, select,
  select-All, select-Memᴰ, Memᴰ, and_true, Option-cases, inl, inr,
}
use grid_token_util.Prelude.Order.{first, first-All, first-Memᴰ}
use grid_token_util.Prelude.Replies.{answer, refused}
use grid_token_util.Domain.{Uuid, Task, TaskState, queued, assigned, running, completed, failed}
use grid_token_util.Store.Tasks.{is_worker, is_state, assigned_before, get_assigned_task_for_worker}
use grid_token_util.Api.Context.{Context}
use grid_token_util.Api.Workers.{
  Backend, HeartbeatEnv, TaskAssignment, assignment, heartbeat, set_heartbeat,
}

module _ (c : Context) (id : Option Uuid) (agents : Option (List String)) (env : HeartbeatEnv)
    (b : Backend) where
  -- A heartbeat that is refused leaves the tasks and the workers; the one in Redis is set before the row
  -- of the worker is written, and stays where the write fails.
  pub heartbeat-refused :
      {code : ℕ} {msg : String}
      → (heartbeat c id agents env b).1 ≡ refused code msg
      → ((heartbeat c id agents env b).0.db ≡ b.db)
  unfolding heartbeat set_heartbeat
  heartbeat-refused h = ground arith

is_state-assigned : (s : TaskState) → is_state s assigned ≡ true → s ≡ assigned
is_state-assigned queued h = cc
is_state-assigned assigned h = refl
is_state-assigned running h = cc
is_state-assigned completed h = cc
is_state-assigned failed h = cc
is_state-assigned TaskState.cancelled h = cc
is_state-assigned (TaskState.other_state s) h = cc

is_worker-some : (w : Uuid) (o : Option Uuid) → is_worker w o ≡ true → o ≡ some w
is_worker-some w none h = cc
is_worker-some w (some v) h = ground arith

abbrev waits_for : Uuid → Task → Bool
waits_for i t = is_worker i t.assigned_worker_id && is_state t.state assigned

waiting :
    (i : Uuid) (tasks : List Task) → All (λ t. waits_for i t ≡ true) (select (waits_for i) tasks)
waiting i tasks = select-All _ _ tasks (All-All (λ t h. h) tasks)

-- A task that a heartbeat hands out is in the table, in the state `assigned`, and assigned to the worker
-- that the heartbeat names.
pub heartbeat-assigned :
    (c : Context) (i : Uuid) (agents : Option (List String)) (env : HeartbeatEnv) (b : Backend)
    {a : TaskAssignment}
    → (heartbeat c (some i) agents env b).1 ≡ answer (some a)
    → (t : Task) × (a ≡ assignment t)
      × Memᴰ t b.db.tasks
      × (t.state ≡ assigned)
      × (t.assigned_worker_id ≡ some i)
unfolding heartbeat set_heartbeat get_assigned_task_for_worker
heartbeat-assigned c i agents env b h =
    elim (Option-cases (first assigned_before (select (waits_for i) b.db.tasks))) [
      | inl e ↦ absurd (ground (arith, h, e))
      | inr (t, e) ↦
          let both = and_true _ _ (
            first-All assigned_before (λ t. waits_for i t ≡ true) (select (waits_for i) b.db.tasks)
              t e (waiting i b.db.tasks)) in
          (
            t,
            ground (arith, h, e),
            select-Memᴰ (waits_for i) b.db.tasks
                (first-Memᴰ assigned_before (select (waits_for i) b.db.tasks) t e),
            is_state-assigned t.state both.1,
            is_worker-some i t.assigned_worker_id both.0,
          )
    ]
