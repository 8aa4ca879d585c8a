-- ===== src/Samples/Scheduling.antt =====
-- Runs of the scheduler, the reaper, the queue and the matcher.
use grid_token_util.Prelude.{
  ◌≡◌, ◌≢◌, refl, ◌⊎◌, String, true, false, none, some, List, [], ◌∷◌, length, select, Memᴰ, All,
  arith,
}
use grid_token_util.Prelude.Order.{first}
use grid_token_util.Prelude.Results.{ok}
use grid_token_util.Domain.{Task, assigned}
use grid_token_util.Store.Workers.{is_ready}
use grid_token_util.Queue.{dequeue}
use grid_token_util.Queue.Order.{dequeue-outranked}
use grid_token_util.Queue.Sample.{sample_queue, two_waiting, two_waiting-first, two_waiting-second}
use grid_token_util.Store.Tasks.{
  claim_in_tx, is_task, is_claimable, lock_key, claimed_before, is_stale,
}
use grid_token_util.Store.Tasks.Claim.{Claims, claim_in_tx-Claims, claim_in_tx-total}
use grid_token_util.Scheduler.Tick.{tick}
use grid_token_util.Scheduler.Tick.Assignments.{IsSound, IsDistinct}
use grid_token_util.Scheduler.Tick.Rounds.{tick-IsDistinct, tick-IsSound}
use grid_token_util.Scheduler.Reaper.{reap, deadline}
use grid_token_util.Scheduler.Reaper.Requeue.{reap-spares}
use grid_token_util.Scheduler.Reaper.Effects.{reap-requeues, IsQueued}
use grid_token_util.Scheduler.Reaper.Penalties.{reap-Penalised, Penalised}
use grid_token_util.Samples.Data.{
  waiting_low, waiting_high, held, sample_db, claim_env, tick_env, reap_env,
}

abbrev claimed_row : Task
claimed_row = record waiting_high {
  state = assigned;
  assigned_worker_id = some 20;
  assigned_at = some 2000;
}

abbrev agents : List String
agents = "claude" ∷ []

claim_in_tx-Claims_example :
    Claims claim_env 20 agents sample_db.tasks claimed_row (waiting_low ∷ claimed_row ∷ held ∷ [])
unfolding claim_in_tx first
claim_in_tx-Claims_example = claim_in_tx-Claims claim_env 20 agents sample_db.tasks refl

claim_in_tx-total_example :
    ((t' : Task) × (rows : List Task) × (claim_in_tx claim_env 20 agents sample_db.tasks
        ≡ ok (some t', rows)))
    ⊎ ((claim_in_tx claim_env 20 agents sample_db.tasks ≡ ok (none, sample_db.tasks))
        × ((All (λ u. is_claimable claim_env.locks agents u ≡ false) sample_db.tasks)
            ⊎ ((t : Task) × (first claimed_before
                    (select (is_claimable claim_env.locks agents) sample_db.tasks)
                  ≡ some t)
                × (claim_env.locks.key_taken (lock_key t.id) ≡ true))))
claim_in_tx-total_example =
    claim_in_tx-total claim_env 20 agents sample_db.tasks refl refl refl refl refl

tick-IsDistinct_example : IsDistinct (tick tick_env sample_db).log
tick-IsDistinct_example = tick-IsDistinct tick_env sample_db

tick-IsSound_example :
    All IsSound (tick tick_env sample_db).log
    × All (λ a. is_ready tick_env.now a.worker ≡ true) (tick tick_env sample_db).log
tick-IsSound_example = tick-IsSound tick_env sample_db

reap-spares_example : select (is_task 10) (reap reap_env sample_db).tasks ≡ waiting_low ∷ []
unfolding is_stale
reap-spares_example = reap-spares reap_env sample_db 10 refl

reap-requeues_example : All (IsQueued 12) (reap reap_env sample_db).tasks
unfolding is_stale
reap-requeues_example =
    reap-requeues reap_env sample_db held (Memᴰ.tail (Memᴰ.tail (Memᴰ.head refl))) refl refl refl

reap-Penalised_example :
    Penalised reap_env
      (length (select (is_stale (deadline reap_env) sample_db.workers) sample_db.tasks))
      []
      (reap reap_env sample_db).ledger
reap-Penalised_example = reap-Penalised reap_env sample_db

dequeue-outranked_example : dequeue sample_queue false two_waiting ≢ ok (some 1, two_waiting)
dequeue-outranked_example =
    dequeue-outranked sample_queue two_waiting two_waiting 2 1 0 1 0 20000000000 two_waiting-second
      two_waiting-first (omega arith, omega arith) (omega arith, omega arith) (omega arith)
