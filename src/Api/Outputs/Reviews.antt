-- ===== src/Api/Outputs/Reviews.antt =====
-- The reviews of control-plane/internal/api/handlers/outputs.go.
use grid_token_util.Prelude.{
  ℕ, ◌≡◌, ◌≢◌, String, Option, none, some, arith, find, inl, inr, Option-cases,
}
use grid_token_util.Prelude.Int.{ℤ, pos, negsuc, neg, ◌+ℤ◌, +ℤ_comm, pos_zero-+ℤ}
use grid_token_util.Prelude.Results.{ok}
use grid_token_util.Prelude.Replies.{answer, refused}
use grid_token_util.Domain.{
  Uuid, OutputPackage, Task, ReviewStatus, pending, other_status, approved, rejected,
  changes_requested,
}
use grid_token_util.Store.Db.{Db}
use grid_token_util.Store.Tasks.{is_task}
use grid_token_util.Store.Outputs.{balance, is_output}
use grid_token_util.Brownie.{event, award, deduct}
use grid_token_util.Brownie.Balance.{balance-snoc}
use grid_token_util.Api.Context.{Context}
use grid_token_util.Api.Outputs.{ReviewEnv, review, review_status, settle, review_entry}

abbrev pub decision_points : ReviewStatus → ℤ
decision_points approved = pos 20
decision_points rejected = negsuc 9
decision_points _ = pos 0

-- A review that is refused changes nothing.
pub review-refused :
    (c : Context) (id : Option Uuid) (status : Option String) (env : ReviewEnv) (db : Db) {code : ℕ}
    {msg : String}
    → (review c id status env db).1 ≡ refused code msg
    → (review c id status env db).0 ≡ db
unfolding review
review-refused c id status env db h = ground arith

module _ (c : Context) (i : Uuid) (status : String) (env : ReviewEnv) (db : Db)
    (h : (review c (some i) (some status) env db).1 ≡ answer tt) where
  reviewed_output : (o : OutputPackage) × (find (is_output i) db.outputs ≡ some o)
  unfolding review
  reviewed_output = elim (Option-cases (find (is_output i) db.outputs)) [
    | inl e ↦ absurd (ground (arith, h, e))
    | inr r ↦ r
  ]

  reviewed_task :
      (o : OutputPackage)
      → find (is_output i) db.outputs ≡ some o
      → (t : Task) × (find (is_task o.task_id) db.tasks ≡ some t)
  unfolding review
  reviewed_task o f = elim (Option-cases (find (is_task o.task_id) db.tasks)) [
    | inl e ↦ absurd (ground (arith, h, f, e))
    | inr r ↦ r
  ]

  -- A review that is answered without an error is of a stored output whose task belongs to the organisation
  -- of the key, and decides one of the three statuses.
  pub review-isolated :
      (o : OutputPackage) × (t : Task) × (find (is_output i) db.outputs ≡ some o)
      × (find (is_task o.task_id) db.tasks ≡ some t)
      × (c.org_unit_id ≡ some t.org_unit_id)
      × (review_status status ≢ none)
  unfolding review
  review-isolated =
      let (o, f) = reviewed_output in
      let (t, g) = reviewed_task o f in
      (o, t, f, g, ground (arith, h, f, g), λ e. absurd (ground (arith, h, f, g, e)))

-- A decision that the ledger accepts moves the balance of the output's worker by 20 points up for an
-- approval and by 10 down for a rejection, and by nothing for a request for changes.
pub settle-points :
    (w org i : Uuid) (env : ReviewEnv) (decision : ReviewStatus) (db : Db) {db' : Db}
    → settle w org i env decision db ≡ ok db'
    → balance w db'.ledger ≡ balance w db.ledger +ℤ decision_points decision
unfolding settle award deduct neg
settle-points w org i env pending db h =
    ground (arith, +ℤ_comm (balance w db.ledger) (pos 0), pos_zero-+ℤ (balance w db.ledger))
settle-points w org i env approved db h =
    ground (
      arith,
      balance-snoc w (event (review_entry w org i "output_approved" env) (pos 20)) db.ledger,
    )
settle-points w org i env rejected db h = ground (
  arith,
  balance-snoc w (event (review_entry w org i "output_rejected" env) (negsuc 9)) db.ledger,
)
settle-points w org i env changes_requested db h =
    ground (arith, +ℤ_comm (balance w db.ledger) (pos 0), pos_zero-+ℤ (balance w db.ledger))
settle-points w org i env (other_status x) db h =
    ground (arith, +ℤ_comm (balance w db.ledger) (pos 0), pos_zero-+ℤ (balance w db.ledger))
