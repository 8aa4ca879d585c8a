-- ===== src/Api/Workers/Registration.antt =====
-- The registration of workers in control-plane/internal/api/handlers/workers.go.
use grid_token_util.Prelude.{
  ◌≡◌, inl, inr, Option-cases, String, Bool, Option, none, some, List, [], ◌∷◌, ◌++◌, arith, find,
  update,
}
use grid_token_util.Prelude.Int.{pos, ◌≤ℤ◌}
use grid_token_util.Prelude.Results.{ok}
use grid_token_util.Prelude.Replies.{answer}
use grid_token_util.Domain.{Uuid, Worker}
use grid_token_util.Store.Workers.{same_host, register_worker, is_worker_row, refresh}
use grid_token_util.Api.Context.{Context}
use grid_token_util.Api.Workers.{
  Backend, RegisterRequest, RegisterEnv, register, new_worker, host_of, capacity_of, set_heartbeat,
  get_worker,
}

-- The rows after the registration of `w`, and the identifier that it answers; `found` is the row that the host
-- had before.
abbrev pub Upserts : Worker → Option Worker → List Worker → Uuid → List Worker → Type 0
Upserts w none before id after = (id ≡ w.id) × (after ≡ before ++ w ∷ [])
Upserts w (some v) before id after = (id ≡ v.id) × (after ≡ update (same_host w) (refresh w) before)

upserted :
    (w : Worker) (fault : Bool) (before : List Worker) {id : Uuid} {after : List Worker}
    → register_worker fault w before ≡ ok (id, after)
    → Upserts w (find (same_host w) before) before id after
unfolding register_worker
upserted w fault before h = elim (Option-cases (find (same_host w) before)) [
  | inl e ↦ rw e (ground (arith, h, e), ground (arith, h, e))
  | inr (v, e) ↦ rw e (ground (arith, h, e), ground (arith, h, e))
]

-- A registration that is answered leaves the capacity within 1 and 100. A host that the organisation has
-- registered before keeps its row, which is refreshed, and its identifier is the answer; a new host has a
-- row added under the new identifier.
pub register-Upserts :
    (c : Context) (req : RegisterRequest) (env : RegisterEnv) (b : Backend) (org : Uuid)
    (host : String) {id : Uuid}
    → c.org_unit_id ≡ some org
    → host_of env req ≡ some host
    → (register c (some req) env b).1 ≡ answer id
    → (pos 1 ≤ℤ capacity_of req)
      × (capacity_of req ≤ℤ pos 100)
      × Upserts
          (new_worker org host req env)
          (find (same_host (new_worker org host req env)) b.db.workers)
          b.db.workers
          id
          (register c (some req) env b).0.db.workers
unfolding register set_heartbeat
register-Upserts c req env b org host ho hh h = (
  ground arith,
  ground arith,
  upserted (new_worker org host req env) env.insert_fails b.db.workers (ground arith),
)

-- A worker is read by its own organisation alone, as it stands in the table, and nothing changes.
pub get_worker-isolated :
    (c : Context) (i : Uuid) (fault : Bool) (b : Backend) {w : Worker}
    → (get_worker c (some i) fault b).1 ≡ answer w
    → (c.org_unit_id ≡ some w.org_unit_id)
      × (find (is_worker_row i) b.db.workers ≡ some w)
      × ((get_worker c (some i) fault b).0 ≡ b)
unfolding get_worker
get_worker-isolated c i fault b h = (ground arith, ground arith, ground arith)
