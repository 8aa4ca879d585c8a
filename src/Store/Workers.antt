-- ===== src/Store/Workers.antt =====
-- control-plane/internal/store/postgres/workers.go over the rows of the table `workers`.
use grid_token_util.Prelude.{
  ◌+◌, ◌*◌, String, Bool, true, false, not, ◌&&◌, ◌==◌, none, some, List, [], ◌∷◌, ◌++◌, str_eq,
  ltb, select, update, exists, find,
}
use grid_token_util.Prelude.Int.{ltb_ℤ}
use grid_token_util.Prelude.Order.{sort}
use grid_token_util.Prelude.Results.{Result, ok, err, not_found, query_failed, ◌>>◌, refuse_if}
use grid_token_util.Domain.{Uuid, Time, Worker, WorkerState, idle, busy, paused, offline}

abbrev pub is_worker_state : WorkerState → WorkerState → Bool
is_worker_state idle idle = true
is_worker_state busy busy = true
is_worker_state paused paused = true
is_worker_state offline offline = true
is_worker_state _ _ = false

abbrev pub is_worker_row : Uuid → Worker → Bool
is_worker_row id w = w.id == id

-- The unique key `(org_unit_id, hostname_hash)`.
abbrev pub same_host : Worker → Worker → Bool
same_host w v = v.org_unit_id == w.org_unit_id && str_eq v.hostname_hash w.hostname_hash

-- `ON CONFLICT … DO UPDATE SET …`.
abbrev pub refresh : Worker → Worker → Worker
refresh w v = record v {
  agents = w.agents;
  state = w.state;
  capacity_score = w.capacity_score;
  last_heartbeat_at = w.last_heartbeat_at;
}

-- Returns the id of the row (`RETURNING id`) with the rows.
unfoldable pub register_worker : Bool → Worker → List Worker → Result (Uuid × List Worker)
register_worker fault w workers = do
  refuse_if fault query_failed
  elim (find (same_host w) workers) [
    | none ↦ ok (w.id, workers ++ w ∷ [])
    | some v ↦ ok (v.id, update (same_host w) (refresh w) workers)
  ]

unfoldable pub update_worker_state : Bool → Uuid → WorkerState → List Worker → Result (List Worker)
update_worker_state fault id state workers = do
  refuse_if fault query_failed
  refuse_if (not (exists (is_worker_row id) workers)) not_found
  ok (update (is_worker_row id) (λ w. record w { state = state }) workers)

unfoldable pub update_worker_heartbeat :
    Bool → Time → Uuid → List String → List Worker → Result (List Worker)
update_worker_heartbeat fault now id agents workers = do
  refuse_if fault query_failed
  refuse_if (not (exists (is_worker_row id) workers)) not_found
  ok (
      update (is_worker_row id) (λ w. record w { last_heartbeat_at = some now; agents = agents })
        workers)

unfoldable pub get_worker : Bool → Uuid → List Worker → Result Worker
get_worker fault id workers = do
  refuse_if fault query_failed
  elim (find (is_worker_row id) workers) [ none ↦ err not_found | some w ↦ ok w ]

-- `ORDER BY created_at ASC`.
abbrev pub older : Worker → Worker → Bool
older v w = ltb v.created_at w.created_at

unfoldable pub list_workers : Bool → Uuid → List Worker → Result (List Worker)
list_workers fault org workers = do
  refuse_if fault query_failed
  ok (sort older (select (λ w. w.org_unit_id == org) workers))

-- `ORDER BY capacity_score DESC`.
abbrev pub stronger : Worker → Worker → Bool
stronger v w = ltb_ℤ w.capacity_score v.capacity_score

-- `INTERVAL '90 seconds'`, in microseconds.
abbrev pub idle_window : Time
idle_window = 90 * 1000000

abbrev pub is_ready : Time → Worker → Bool
is_ready now w =
    is_worker_state w.state idle
    && elim w.last_heartbeat_at [ none ↦ false | some t ↦ ltb now (t + idle_window) ]

unfoldable pub list_idle_workers : Bool → Time → List Worker → Result (List Worker)
list_idle_workers fault now workers = do
  refuse_if fault query_failed
  ok (sort stronger (select (is_ready now) workers))
