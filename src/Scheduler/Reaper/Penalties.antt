-- ===== src/Scheduler/Reaper/Penalties.antt =====
-- The points that a reaping round of control-plane/internal/scheduler/reaper.go takes.
use mathlib.Core.List.{append-nil, append_assoc}
use grid_token_util.Prelude.{
  ℕ, ◌+◌, ◌≤◌, ◌≡◌, refl, sym, ap, subst, ◌∙◌, true, Option, none, some, List, [], ◌∷◌, ◌++◌, arith,
  All, length, ◌⊎◌, inl, inr, select, Bool-cases, append-All, length-append,
}
use grid_token_util.Domain.{Uuid, Task, BrownieEvent}
use grid_token_util.Store.Db.{Db}
use grid_token_util.Store.Tasks.{is_stale}
use grid_token_util.Brownie.{points_task_abandoned, deduct, event}
use grid_token_util.Prelude.Int.{neg}
use grid_token_util.Scheduler.Reaper.{
  ReapEnv, deadline, confirmed_dead, punish, requeue, reap_all, reap, abandoned,
}
use grid_token_util.Scheduler.Reaper.Requeue.{requeued, requeue_cases, reap_cases}

-- The entries that a round may add to the ledger.
pub record IsPenalty (env : ReapEnv) (e : BrownieEvent) : Type 0 where
  pub points : e.points ≡ points_task_abandoned
  pub reason : e.reason ≡ "task_abandoned"
  pub dead : confirmed_dead env (some e.worker_id) ≡ true

-- The ledger grows by penalties only, at most one for each task of the list.
abbrev pub Penalised : ReapEnv → ℕ → List BrownieEvent → List BrownieEvent → Type 0
Penalised env n old new =
    (extra : List BrownieEvent) × (new ≡ old ++ extra)
    × All (IsPenalty env) extra
    × (length extra ≤ n)

same : (env : ReapEnv) (ledger : List BrownieEvent) {n : ℕ} → Penalised env n ledger ledger
same env ledger = ([], sym (append-nil ledger), tt, omega arith)

join :
    (env : ReapEnv) (m n : ℕ) (xs ys zs : List BrownieEvent)
    → Penalised env m xs ys
    → Penalised env n ys zs
    → Penalised env (m + n) xs zs
join env m n xs ys zs (a, e, pa, la) (b, f, pb, lb) = (
  a ++ b,
  f ∙ ap (λ v. v ++ b) e ∙ append_assoc xs a b,
  append-All _ a b pa pb,
  omega (arith, length-append {0} a b),
)

weaken :
    (env : ReapEnv) (m n : ℕ) (xs ys : List BrownieEvent)
    → m ≤ n
    → Penalised env m xs ys
    → Penalised env n xs ys
weaken env m n xs ys h (a, e, pa, la) = (a, e, pa, omega arith)

-- The entry of a punished worker.
abbrev penalty : ReapEnv → Task → Uuid → BrownieEvent
penalty env t w = event (abandoned env t w) points_task_abandoned

punish-ledger :
    (env : ReapEnv) (t : Task) (w : Uuid) (db : Db)
    → ((punish env t (some w) db).ledger ≡ db.ledger)
      ⊎ ((punish env t (some w) db).ledger ≡ db.ledger ++ penalty env t w ∷ [])
unfolding punish deduct neg
punish-ledger env t w db = ground arith

punish-Penalised :
    (env : ReapEnv) (t : Task) (w : Option Uuid) (db : Db)
    → confirmed_dead env w ≡ true
    → Penalised env 1 db.ledger (punish env t w db).ledger
punish-Penalised env t none db dead = unfold punish in same env db.ledger
punish-Penalised env t (some w) db dead = elim (punish-ledger env t w db) [
  | inl e ↦ subst (Penalised env 1 db.ledger) (sym e) (same env db.ledger)
  | inr e ↦ (
    penalty env t w ∷ [],
    e,
    (record { points = refl; reason = refl; dead = dead }, tt),
    omega arith,
  )
]

requeue-Penalised :
    (env : ReapEnv) (t : Task) (db : Db)
    → confirmed_dead env t.assigned_worker_id ≡ true
    → Penalised env 1 db.ledger (requeue env t db).ledger
requeue-Penalised env t db dead =
    requeue_cases (λ d. Penalised env 1 db.ledger d.ledger) env t db (λ _. same env db.ledger)
      (punish-Penalised env t t.assigned_worker_id (requeued env t db) dead)

reap_all-Penalised :
    (env : ReapEnv) (ts : List Task) (db : Db)
    → Penalised env (length ts) db.ledger (reap_all env ts db).ledger
unfolding reap_all
reap_all-Penalised env [] db = same env db.ledger
reap_all-Penalised env (t ∷ ts) db = elim (Bool-cases (confirmed_dead env t.assigned_worker_id)) [
  | inl e ↦
      rw (e, reap_all)
        (weaken env _ _ db.ledger _ (omega arith) (
          join env 1 (length ts) db.ledger _ _ (requeue-Penalised env t db e)
            (reap_all-Penalised env ts (requeue env t db))))
  | inr e ↦
      rw (e, reap_all) (weaken env _ _ db.ledger _ (omega arith) (reap_all-Penalised env ts db))
]

-- A round adds to the ledger only penalties, each of five points and of a worker that Redis confirms
-- to have no heartbeat, and at most one for each stale task; it removes and changes no entry.
pub reap-Penalised :
    (env : ReapEnv) (db : Db)
    → Penalised env
        (length (select (is_stale (deadline env) db.workers) db.tasks))
        db.ledger
        (reap env db).ledger
reap-Penalised env db =
    reap_cases
      (λ d.
        Penalised env (length (select (is_stale (deadline env) db.workers) db.tasks)) db.ledger
          d.ledger)
      env db (λ _. same env db.ledger) (reap_all-Penalised env _ db)
