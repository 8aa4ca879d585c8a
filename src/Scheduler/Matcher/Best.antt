-- ===== src/Scheduler/Matcher/Best.antt =====
-- Which worker `bestWorker` of control-plane/internal/scheduler/matcher.go selects.
use grid_token_util.Prelude.{
  ◌≡◌, refl, true, Option, none, some, List, [], ◌∷◌, if◌then◌else◌, arith, All, Bool-cases, ◌⊎◌,
  inl, inr,
}
use grid_token_util.Prelude.Int.{ℤ, pos, negsuc, ltb_ℤ, ◌≤ℤ◌, ◌<ℤ◌, IsInt64, wrap64_id}
use grid_token_util.Domain.{Task, Worker, idle}
use grid_token_util.Store.Tasks.{has_agent}
use grid_token_util.Store.Workers.{is_worker_state}
use grid_token_util.Scheduler.Matcher.{raw_score, match_score, best_from, best_worker}

-- What the loop knows of the best worker so far.
abbrev Leads : Task → Option Worker → ℤ → Type 0
Leads task best score =
    ((best ≡ none) × (score ≡ negsuc 0))
    ⊎ ((c : Worker) × (best ≡ some c) × (match_score task c ≡ score) × (negsuc 0 <ℤ score))

next_Leads :
    (task : Task) (w : Worker) (best : Option Worker) (score : ℤ)
    → Leads task best score
    → Leads task
        (if ltb_ℤ score (match_score task w) then some w else best)
        (if ltb_ℤ score (match_score task w) then match_score task w else score)
next_Leads task w best score (inl (n, e)) = elim (Bool-cases (ltb_ℤ score (match_score task w))) [
  | inl h ↦ inr (w, rw h, rw h, ground arith)
  | inr h ↦ inl (ground arith, ground arith)
]
next_Leads task w best score (inr (c, b, m, g)) =
    elim (Bool-cases (ltb_ℤ score (match_score task w))) [
      | inl h ↦ inr (w, rw h, rw h, ground arith)
      | inr h ↦ inr (c, ground arith, ground arith, ground arith)
    ]

best_from-some :
    (task : Task) (ws : List Worker) (best : Option Worker) (score : ℤ) (b : Worker)
    → Leads task best score
    → best_from task ws best score ≡ some b
    → (negsuc 0 <ℤ match_score task b)
      × (score ≤ℤ match_score task b)
      × All (λ w. match_score task w ≤ℤ match_score task b) ws
unfolding best_from
best_from-some task [] best score b l h = (ground (arith, l), ground (arith, l), tt)
best_from-some task (w ∷ ws) best score b l h =
    let (g, le, all) = best_from-some task ws _ _ b (next_Leads task w best score l) h in
    (g, ground (arith, le), (ground (arith, le), all))

best_from-none :
    (task : Task) (ws : List Worker) (best : Option Worker) (score : ℤ)
    → Leads task best score
    → best_from task ws best score ≡ none
    → (best ≡ none) × All (λ w. match_score task w ≤ℤ negsuc 0) ws
unfolding best_from
best_from-none task [] best score l h = (h, tt)
best_from-none task (w ∷ ws) best score l h =
    let (n, all) = best_from-none task ws _ _ (next_Leads task w best score l) h in
    (ground (arith, n, l), (ground (arith, n, l), all))

-- The worker that is selected has a score of at least 0, and no worker has a greater one.
pub best_worker-greatest :
    (task : Task) (ws : List Worker) {b : Worker}
    → best_worker task ws ≡ some b
    → (pos 0 ≤ℤ match_score task b) × All (λ w. match_score task w ≤ℤ match_score task b) ws
unfolding best_worker
best_worker-greatest task ws {b} h =
    let (g, _, all) = best_from-some task ws none (negsuc 0) b (inl (refl, refl)) h in
    (omega arith, all)

-- Where no worker is selected, no worker has a score of at least 0.
pub best_worker-none :
    (task : Task) (ws : List Worker)
    → best_worker task ws ≡ none
    → All (λ w. match_score task w ≤ℤ negsuc 0) ws
unfolding best_worker
best_worker-none task ws h = (best_from-none task ws none (negsuc 0) (inl (refl, refl)) h).1

-- An idle worker that serves the task's agent is passed over all the same where the score of the pair is
-- negative, as for a task with many retries.
pub compatible_passed_over :
    (task : Task) (w : Worker)
    → has_agent w.agents task.ai_agent ≡ true
    → is_worker_state w.state idle ≡ true
    → IsInt64 (raw_score task w)
    → raw_score task w <ℤ pos 0
    → best_worker task (w ∷ []) ≡ none
unfolding best_worker match_score
compatible_passed_over task w a i fits low = ground (arith, wrap64_id (raw_score task w) fits)
