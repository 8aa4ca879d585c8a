-- ===== src/Brownie/Balance.antt =====
-- How the points of control-plane/internal/brownie/engine.go add up to the balance that
-- `GetBalance` of control-plane/internal/store/postgres/brownie.go reads.
use grid_token_util.Prelude.{
  ◌≡◌, sym, ◌==◌, if◌then◌else◌, List, [], ◌∷◌, ◌++◌, arith, inl, inr, Bool-cases,
}
use grid_token_util.Prelude.Int.{
  ℤ, pos, neg, ◌+ℤ◌, ◌-ℤ◌, ◌<ℤ◌, +ℤ_assoc, +ℤ_comm, pos_zero-+ℤ, +ℤ-neg,
}
use grid_token_util.Prelude.Results.{ok}
use grid_token_util.Domain.{Uuid, BrownieEvent}
use grid_token_util.Store.Outputs.{balance}
use grid_token_util.Brownie.{Entry, award, deduct, event}

pub balance-append :
    (w : Uuid) (xs ys : List BrownieEvent) → balance w (xs ++ ys) ≡ balance w xs +ℤ balance w ys
unfolding balance
balance-append w [] ys = sym (pos_zero-+ℤ _)
balance-append w (e ∷ xs) ys = elim (Bool-cases (e.worker_id == w)) [
  | inl h ↦ rw h (rw (balance-append w xs ys) (sym (+ℤ_assoc _ _ _)))
  | inr h ↦ rw h (balance-append w xs ys)
]

-- One more entry at the end.
pub balance-snoc :
    (w : Uuid) (e : BrownieEvent) (xs : List BrownieEvent)
    → balance w (xs ++ e ∷ [])
      ≡ (if e.worker_id == w then balance w xs +ℤ e.points else balance w xs)
balance-snoc w e xs = rw (balance-append w xs (e ∷ [])) (
    unfold balance in
    ground (
      arith,
      +ℤ_comm (balance w xs) (pos 0),
      pos_zero-+ℤ (balance w xs),
      pos_zero-+ℤ e.points,
      +ℤ_comm e.points (pos 0),
    ))

-- An award that is written is of a positive number of points, raises the balance of its worker by
-- that number, and leaves the balance of every other worker.
pub balance-award :
    (e : Entry) (points : ℤ) (w : Uuid) (ledger : List BrownieEvent) {rows : List BrownieEvent}
    → award e points ledger ≡ ok rows
    → (pos 0 <ℤ points)
      × (balance w rows ≡ (if e.worker == w then balance w ledger +ℤ points else balance w ledger))
unfolding award
balance-award e points w ledger {rows} h =
    (ground arith, ground (arith, balance-snoc w (event e points) ledger))

-- A deduction that is written is of a positive number of points, lowers the balance of its worker by
-- that number, and leaves the balance of every other worker.
pub balance-deduct :
    (e : Entry) (points : ℤ) (w : Uuid) (ledger : List BrownieEvent) {rows : List BrownieEvent}
    → deduct e points ledger ≡ ok rows
    → (pos 0 <ℤ points)
      × (balance w rows ≡ (if e.worker == w then balance w ledger -ℤ points else balance w ledger))
unfolding deduct
balance-deduct e points w ledger {rows} h = (
  ground arith,
  ground (arith, balance-snoc w (event e (neg points)) ledger, +ℤ-neg (balance w ledger) points),
)
