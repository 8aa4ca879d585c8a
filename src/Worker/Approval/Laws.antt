-- ===== src/Worker/Approval/Laws.antt =====
-- The life of an approval in grid-worker/internal/policy/approval.go.
use grid_token_util.Prelude.{
  ◌≡◌, ◌≤◌, ◌+◌, String, true, false, none, List, [], ◌∷◌, if◌then◌else◌, str_eq, str_eq_iff, arith,
}
use grid_token_util.Domain.{Time}
use grid_token_util.Worker.Approval.{
  Approval, ApprovalStore, default_approval_ttl, lookup, remove, contains, forget, request, approve,
  is_approved, consume_approval, new_approval,
}

pub contains-forget :
    (i j : String) (xs : List String)
    → contains j (forget i xs) ≡ (if str_eq i j then false else contains j xs)
unfolding contains forget
contains-forget i j [] = ground (arith, str_eq_iff i j)
contains-forget i j (a ∷ xs) =
    ground (arith, str_eq_iff i j, str_eq_iff a i, str_eq_iff a j, contains-forget i j xs)

pub lookup-remove :
    (i j : String) (xs : List Approval)
    → lookup j (remove i xs) ≡ (if str_eq i j then none else lookup j xs)
unfolding lookup remove
lookup-remove i j [] = ground (arith, str_eq_iff i j)
lookup-remove i j (a ∷ xs) =
    ground
      (arith, str_eq_iff i j, str_eq_iff a.task_id i, str_eq_iff a.task_id j, lookup-remove i j xs)

-- A request for a task that has none pending, and that is approved before it expires, leaves the task approved
-- until the approval is consumed; no second approval succeeds.
pub approve_once :
    (now later : Time) (id : String) (s : ApprovalStore)
    → lookup id s.pending ≡ none
    → now ≤ later
    → later ≤ now + default_approval_ttl
    → let (s', done) = approve later id (request now id s).0 in
      (done ≡ true)
      × (is_approved id s' ≡ true)
      × (is_approved id (consume_approval id s') ≡ false)
      × ((approve later id s').1 ≡ false)
unfolding request approve is_approved consume_approval contains lookup
approve_once now later id s fresh h k = ground (
  arith,
  str_eq_iff id id,
  contains-forget id id s.approved,
  contains-forget id id (id ∷ forget id s.approved),
  lookup-remove id id s.pending,
  lookup-remove id id (new_approval now id ∷ s.pending),
)

-- Approving a task makes no other task approved, and makes the task itself approved only where it succeeds.
pub approve-is_approved :
    (now : Time) (i j : String) (s : ApprovalStore)
    → is_approved j (approve now i s).0 ≡ true
    → is_approved j s ≡ false
    → (i ≡ j) × ((approve now i s).1 ≡ true)
unfolding approve is_approved contains
approve-is_approved now i j s h k = ground (arith, contains-forget i j s.approved, str_eq_iff i j)
