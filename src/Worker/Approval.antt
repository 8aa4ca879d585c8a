-- ===== src/Worker/Approval.antt =====
-- grid-worker/internal/policy/approval.go. The two maps are association lists with one entry for a key
-- (`Request` adds only a key that is missing); the clock is an argument.
pub mod Laws
use grid_token_util.Prelude.{
  ℕ, ◌+◌, ◌*◌, String, Bool, true, false, not, ◌||◌, Option, none, some, List, [], ◌∷◌,
  if◌then◌else◌, str_eq, ltb,
}
use grid_token_util.Domain.{Time}

pub record Approval : Type 0 where
  pub task_id : String
  pub requested_at : Time
  pub expires_at : Time

pub record ApprovalStore : Type 0 where
  pub pending : List Approval
  pub approved : List String

-- 30 minutes, in microseconds.
abbrev pub default_approval_ttl : Time
default_approval_ttl = 30 * 60 * 1000000

unfoldable pub new : ApprovalStore
new = record { pending = []; approved = [] }

unfoldable pub lookup : String → List Approval → Option Approval
lookup id [] = none
lookup id (a ∷ rest) = if str_eq a.task_id id then some a else lookup id rest

-- `delete(s.pending, taskID)`.
unfoldable pub remove : String → List Approval → List Approval
remove id [] = []
remove id (a ∷ rest) = let kept = remove id rest in if str_eq a.task_id id then kept else a ∷ kept

unfoldable pub contains : String → List String → Bool
contains id [] = false
contains id (a ∷ rest) = str_eq a id || contains id rest

-- `delete(s.approved, taskID)`.
unfoldable pub forget : String → List String → List String
forget id [] = []
forget id (a ∷ rest) = let kept = forget id rest in if str_eq a id then kept else a ∷ kept

abbrev pub new_approval : Time → String → Approval
new_approval now id = record {
  task_id = id;
  requested_at = now;
  expires_at = now + default_approval_ttl;
}

unfoldable pub request : Time → String → ApprovalStore → ApprovalStore × Approval
request now id s = elim (lookup id s.pending) [
  | some a ↦ (s, a)
  | none ↦ (record s { pending = new_approval now id ∷ s.pending }, new_approval now id)
]

unfoldable pub approve : Time → String → ApprovalStore → ApprovalStore × Bool
unfolding remove forget
approve now id s = elim (lookup id s.pending) [
  | none ↦ (s, false)
  | some a ↦
      if ltb a.expires_at now
      then (record s { pending = remove id s.pending }, false)
      else (record { pending = remove id s.pending; approved = id ∷ forget id s.approved }, true)
]

unfoldable pub deny : String → ApprovalStore → ApprovalStore × Bool
deny id s = elim (lookup id s.pending) [
  | none ↦ (s, false)
  | some a ↦ (record { pending = remove id s.pending; approved = forget id s.approved }, true)
]

unfoldable pub is_approved : String → ApprovalStore → Bool
is_approved id s = contains id s.approved

unfoldable pub consume_approval : String → ApprovalStore → ApprovalStore
consume_approval id s = record s { approved = forget id s.approved }

unfoldable pub pending_list : Time → List Approval → List Approval
pending_list now [] = []
pending_list now (a ∷ rest) =
    let kept = pending_list now rest in if ltb now a.expires_at then a ∷ kept else kept

unfoldable pub purge : Time → List Approval → List Approval
purge now [] = []
purge now (a ∷ rest) = let kept = purge now rest in if ltb a.expires_at now then kept else a ∷ kept

unfoldable pub purge_expired : Time → ApprovalStore → ApprovalStore
unfolding purge
purge_expired now s = record s { pending = purge now s.pending }
