-- ===== src/Store/Outputs.antt =====
-- control-plane/internal/store/postgres/outputs.go and brownie.go: submitted outputs and the ledger.
use grid_token_util.Prelude.{
  ◌==◌, Bool, not, none, some, List, [], ◌∷◌, ◌++◌, if◌then◌else◌, update, exists, find,
}
use grid_token_util.Prelude.Int.{ℤ, pos, ◌+ℤ◌}
use grid_token_util.Prelude.Results.{
  Result, ok, err, not_found, query_failed, conflict, ◌>>◌, refuse_if,
}
use grid_token_util.Domain.{Uuid, Time, OutputPackage, ReviewStatus, BrownieEvent}

abbrev pub is_output : Uuid → OutputPackage → Bool
is_output id o = o.id == id

unfoldable pub create_output :
    Bool → OutputPackage → List OutputPackage → Result (List OutputPackage)
create_output fault o outputs = do
  refuse_if fault query_failed
  refuse_if (exists (is_output o.id) outputs) conflict
  ok (outputs ++ o ∷ [])

unfoldable pub get_output : Bool → Uuid → List OutputPackage → Result OutputPackage
get_output fault id outputs = do
  refuse_if fault query_failed
  elim (find (is_output id) outputs) [ none ↦ err not_found | some o ↦ ok o ]

unfoldable pub update_output_review :
    Bool → Time → Uuid → ReviewStatus → Uuid → List OutputPackage → Result (List OutputPackage)
update_output_review fault now id status reviewer outputs = do
  refuse_if fault query_failed
  refuse_if (not (exists (is_output id) outputs)) not_found
  ok (
      update (is_output id)
        (λ o. record o {
          review_status = status;
          reviewer_id = some reviewer;
          reviewed_at = some now;
        })
        outputs)

unfoldable pub write_ledger_entry :
    Bool → Time → BrownieEvent → List BrownieEvent → Result (List BrownieEvent)
write_ledger_entry fault now ev ledger = do
  refuse_if fault query_failed
  refuse_if (exists (λ e. e.id == ev.id) ledger) conflict
  ok (ledger ++ record ev { created_at = now } ∷ [])

-- `SUM(points)` over the worker's rows; `COALESCE` makes it 0 where there is none.
unfoldable pub balance : Uuid → List BrownieEvent → ℤ
balance worker [] = pos 0
balance worker (e ∷ es) =
    let rest = balance worker es in if e.worker_id == worker then e.points +ℤ rest else rest

unfoldable pub get_balance : Bool → Uuid → List BrownieEvent → Result ℤ
unfolding balance
get_balance fault worker ledger = do refuse_if fault query_failed; ok (balance worker ledger)
