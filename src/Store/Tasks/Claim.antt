-- ===== src/Store/Tasks/Claim.antt =====
-- What `ClaimNextTask` of control-plane/internal/store/postgres/tasks.go does in its transaction.
use grid_token_util.Prelude.{
  ◌≡◌, Bool, not, ◌&&◌, true, false, none, some, List, [], String, ◌⊎◌, inl, inr, ◌≤◌, arith, All,
  select, update, select-All, All-map, All-All, select-empty, select-Memᴰ, Memᴰ, Bool-cases,
  Option-cases,
}
use grid_token_util.Prelude.Int.{◌<ℤ◌, ◌≤ℤ◌}
use grid_token_util.Prelude.Order.{IsOrder, first, first-least, first-All, first-Memᴰ, first-none}
use grid_token_util.Prelude.Results.{ok}
use grid_token_util.Domain.{Uuid, Task, queued}
use grid_token_util.Store.Tasks.{
  ClaimEnv, Locks, is_state, has_agent, claimed_before, is_claimable, is_task, claim, claim_in_tx,
  lock_key,
}

pub claimed_before-IsOrder : IsOrder claimed_before
claimed_before-IsOrder = record { asym = λ a b h. ground arith; trans = λ a b c h k. ground arith }

-- What a claim asks of a row: it is queued, for one of the agents, and not locked.
abbrev pub is_open : Locks → List String → Task → Bool
is_open locks agents t =
    is_state t.state queued && has_agent agents t.ai_agent && not (locks.row_locked t.id)

-- `t` has a greater priority than `u`, or one that is no less and was queued no later.
abbrev pub Precedes : Task → Task → Type 0
Precedes t u =
    (u.priority <ℤ t.priority) ⊎ ((u.priority ≤ℤ t.priority) × (t.queued_at ≤ u.queued_at))

-- A claim of `t` that leaves `t'` for the worker and `after` in the table.
pub record Claims (env : ClaimEnv) (worker : Uuid) (agents : List String) (before : List Task)
    (t' : Task) (rows : List Task) : Type 0 where
  pub row : Task
  pub present : Memᴰ row before
  pub claimable : is_open env.locks agents row ≡ true
  pub least : All (Precedes row) (select (is_open env.locks agents) before)
  pub unlocked : env.locks.key_taken (lock_key row.id) ≡ false
  pub claimed : t' ≡ claim env.now worker row
  pub updated : rows ≡ update (is_task row.id) (claim env.now worker) before

module _ (env : ClaimEnv) (worker : Uuid) (agents : List String) (tasks : List Task) where
  abbrev candidates : List Task
  candidates = select (is_claimable env.locks agents) tasks

  candidates-All : All (λ u. is_claimable env.locks agents u ≡ true) candidates
  candidates-All = select-All _ _ tasks (All-All (λ u h. h) tasks)

  -- A claim that returns a task returns a row that is queued, for one of the worker's agents, not locked,
  -- and ahead of every other such row (a higher priority, or no lower one and queued no later), whose
  -- advisory lock was free; the row is now assigned to the worker, and no other row of the table is changed.
  pub claim_in_tx-Claims :
      {t' : Task} {rows : List Task}
      → claim_in_tx env worker agents tasks ≡ ok (some t', rows)
      → Claims env worker agents tasks t' rows
  unfolding claim_in_tx
  claim_in_tx-Claims h = elim (Option-cases (first claimed_before candidates)) [
    | inl e ↦ absurd (ground arith)
    | inr (t, e) ↦ record {
      row = t;
      present = select-Memᴰ _ tasks (first-Memᴰ claimed_before candidates t e);
      claimable = first-All claimed_before _ candidates t e candidates-All;
      least =
          All-map (λ u h. ground arith) candidates
            (first-least claimed_before-IsOrder candidates t e);
      unlocked = ground arith;
      claimed = ground arith;
      updated = ground arith;
    }
  ]

  -- A claim that returns no task leaves the table as it was.
  pub claim_in_tx-none :
      {rows : List Task} → claim_in_tx env worker agents tasks ≡ ok (none, rows) → rows ≡ tasks
  unfolding claim_in_tx
  claim_in_tx-none h = elim (Option-cases (first claimed_before candidates)) [
    | inl e ↦ ground arith
    | inr (t, e) ↦ ground arith
  ]

  -- Where the database fails no step, a claim is answered, and it returns a task unless no row can be
  -- claimed or another transaction holds the advisory lock of the row that comes first.
  pub claim_in_tx-total :
      env.begin_fails ≡ false
      → env.select_fails ≡ false
      → env.lock_fails ≡ false
      → env.update_fails ≡ false
      → env.commit_fails ≡ false
      → ((t' : Task) × (rows : List Task) × (claim_in_tx env worker agents tasks
            ≡ ok (some t', rows)))
        ⊎ ((claim_in_tx env worker agents tasks ≡ ok (none, tasks))
            × ((All (λ u. is_claimable env.locks agents u ≡ false) tasks)
                ⊎ ((t : Task) × (first claimed_before candidates ≡ some t)
                    × (env.locks.key_taken (lock_key t.id) ≡ true))))
  unfolding claim_in_tx
  claim_in_tx-total a b c d f = elim (Option-cases (first claimed_before candidates)) [
    | inl e ↦ inr (ground arith, inl (none_claimable (first-none claimed_before candidates e)))
    | inr (t, e) ↦ elim (Bool-cases (env.locks.key_taken (lock_key t.id))) [
      | inl k ↦ inr (ground arith, inr (t, e, k))
      | inr k ↦
          inl (
            claim env.now worker t,
            update (is_task t.id) (claim env.now worker) tasks,
            ground arith,
          )
    ]
  ]
    where
      none_claimable : candidates ≡ [] → All (λ u. is_claimable env.locks agents u ≡ false) tasks
      none_claimable e = select-empty (is_claimable env.locks agents) tasks e
