-- ===== src/Queue.antt =====
-- control-plane/internal/queue/redis_queue.go over an interface for Redis' sorted sets, which are not
-- part of the repository. A score is a `float64` there. All that the queue computes are integers, so that a
-- `float64` is an integer here that `round` gives.
pub mod Order
pub mod Sample
use grid_token_util.Prelude.{
  ℕ, ◌*◌, ◌^◌, ◌+◌, ◌≤◌, ◌≡◌, ◌==◌, Bool, Option, none, some, if◌then◌else◌,
}
use grid_token_util.Prelude.Int.{ℤ, pos, ◌*ℤ◌, ◌-ℤ◌, ◌≤ℤ◌, pos_part, neg_part}
use grid_token_util.Prelude.Results.{Result, ok, err, query_failed}
use grid_token_util.Domain.{Uuid, Time}

-- Every integer of at most this size is a `float64`.
abbrev pub exact_bound : ℕ
exact_bound = 2 ^ 53

-- The commands that the queue sends, with their documented effect on the scores of the members.
pub record SortedSet : Type 1 where
  pub Carrier : Type 0
  pub score_of : Carrier → Uuid → Option ℤ
  pub zadd : Carrier → Uuid → ℤ → Carrier
  pub zrem : Carrier → Uuid → Carrier
  pub zpopmax : Carrier → Option (Uuid × Carrier)
  pub zcard : Carrier → ℕ
  -- The `float64` nearest to an integer, which is the integer itself up to 2^53.
  pub round : ℤ → ℤ
  pub round-exact : (n : ℤ) → pos_part n ≤ exact_bound → neg_part n ≤ exact_bound → round n ≡ n
  pub score_of-zadd :
      (s : Carrier) (m n : Uuid) (x : ℤ)
      → score_of (zadd s m x) n ≡ (if m == n then some x else score_of s n)
  pub score_of-zrem :
      (s : Carrier) (m n : Uuid) → score_of (zrem s m) n ≡ (if m == n then none else score_of s n)
  pub zpopmax-none : (s : Carrier) (n : Uuid) → zpopmax s ≡ none → score_of s n ≡ none
  pub zpopmax-greatest :
      (s t : Carrier) (m n : Uuid) (y : ℤ)
      → zpopmax s ≡ some (m, t)
      → score_of s n ≡ some y
      → (x : ℤ) × (score_of s m ≡ some x) × (y ≤ℤ x)
  pub zpopmax-rest :
      (s t : Carrier) (m n : Uuid)
      → zpopmax s ≡ some (m, t)
      → score_of t n ≡ (if m == n then none else score_of s n)

module _ (r : SortedSet) where
  open r use {Carrier, zadd, zrem, zpopmax, zcard, round}

  -- `float64(priority)*1e10 - float64(queuedAt.UnixMicro())`: both conversions, the product and the difference are rounded.
  unfoldable pub score : ℤ → Time → ℤ
  score priority queued_at = round (round (round priority *ℤ 10000000000) -ℤ round (pos queued_at))

  -- `fault`: Redis does not answer.
  unfoldable pub enqueue : Bool → Uuid → ℤ → Time → Carrier → Result Carrier
  unfolding score
  enqueue fault task priority queued_at s =
      if fault then err query_failed else ok (zadd s task (score priority queued_at))

  -- The set and the task, `none` where the queue is empty.
  unfoldable pub dequeue : Bool → Carrier → Result (Option Uuid × Carrier)
  dequeue fault s =
      if fault
      then err query_failed
      else elim (zpopmax s) [ none ↦ ok (none, s) | some (m, t) ↦ ok (some m, t) ]

  unfoldable pub queue_length : Bool → Carrier → Result ℕ
  queue_length fault s = if fault then err query_failed else ok (zcard s)

  unfoldable pub remove_from_queue : Bool → Uuid → Carrier → Result Carrier
  remove_from_queue fault task s = if fault then err query_failed else ok (zrem s task)
