-- ===== src/Brownie.antt =====
-- control-plane/internal/brownie/engine.go: the points of a worker. The identifier that `uuid.New`
-- makes and the clock of the database are arguments.
pub mod Balance
use grid_token_util.Prelude.{String, Bool, Option, List}
use grid_token_util.Prelude.Int.{ℤ, pos, negsuc, neg, leb_ℤ}
use grid_token_util.Prelude.Results.{Result, invalid_points, ◌>>◌, refuse_if}
use grid_token_util.Domain.{Uuid, Time, BrownieEvent}
use grid_token_util.Store.Outputs.{write_ledger_entry}

abbrev pub points_task_completed : ℤ
points_task_completed = pos 10

abbrev pub points_task_abandoned : ℤ
points_task_abandoned = negsuc 4

abbrev pub points_output_approved : ℤ
points_output_approved = pos 20

abbrev pub points_output_rejected : ℤ
points_output_rejected = negsuc 9

abbrev pub points_secret_found : ℤ
points_secret_found = negsuc 49

-- What one entry is about, and what the environment gives for it.
pub record Entry : Type 0 where
  pub worker : Uuid
  pub org : Uuid
  pub reason : String
  pub ref : Option Uuid
  pub fresh_id : Uuid
  pub now : Time
  pub fault : Bool

abbrev pub event : Entry → ℤ → BrownieEvent
event e points = record {
  id = e.fresh_id;
  worker_id = e.worker;
  org_unit_id = e.org;
  points = points;
  reason = e.reason;
  reference_id = e.ref;
  created_at = e.now;
}

-- `Engine.write`.
unfoldable pub record_points : Entry → ℤ → List BrownieEvent → Result (List BrownieEvent)
unfolding write_ledger_entry
record_points e points ledger = write_ledger_entry e.fault e.now (event e points) ledger

unfoldable pub award : Entry → ℤ → List BrownieEvent → Result (List BrownieEvent)
unfolding record_points
award e points ledger = do
  refuse_if (leb_ℤ points (pos 0)) invalid_points
  record_points e points ledger

unfoldable pub deduct : Entry → ℤ → List BrownieEvent → Result (List BrownieEvent)
unfolding record_points
deduct e points ledger = do
  refuse_if (leb_ℤ points (pos 0)) invalid_points
  record_points e (neg points) ledger
