-- ===== src/Queue/Order.antt =====
-- The order in which the queue of control-plane/internal/queue/redis_queue.go returns its tasks.
use grid_token_util.Prelude.{
  ℕ, ◌+◌, ◌*◌, ◌<◌, ◌≤◌, ◌≡◌, ◌≢◌, ◌==◌, sym, subst, ap, ◌∙◌, some-injective, false, some, arith,
  if◌then◌else◌,
}
use grid_token_util.Prelude.Int.{ℤ, pos, ◌*ℤ◌, ◌-ℤ◌, ◌≤ℤ◌, ◌<ℤ◌, pos_part, neg_part}
use grid_token_util.Prelude.Results.{ok}
use grid_token_util.Domain.{Uuid, Time}
use grid_token_util.Queue.{SortedSet, exact_bound, score, enqueue, dequeue}

-- Ten thousand seconds, in microseconds: what one level of priority is worth.
abbrev pub level : ℕ
level = 10000000000

-- A priority and a time whose score is computed without rounding: the priority is at most 900,719, and the time before the
-- year 2255.
abbrev pub IsExact : ℕ → Time → Type 0
IsExact p t = (p * level ≤ exact_bound) × (t ≤ exact_bound)

difference_bounded :
    (a t k : ℕ) → a ≤ k → t ≤ k → (pos_part (pos a -ℤ pos t) ≤ k) × (neg_part (pos a -ℤ pos t) ≤ k)
unfolding ◌-ℤ◌
difference_bounded a t k h l = (ground arith, ground arith)

module _ (r : SortedSet) where
  open r use {Carrier, score_of, zpopmax, zpopmax-greatest}

  exact_pos : (n : ℕ) → n ≤ exact_bound → r.round (pos n) ≡ pos n
  exact_pos n h = r.round-exact (pos n) h (omega arith)

  exact_difference :
      (a t : ℕ) → a ≤ exact_bound → t ≤ exact_bound → r.round (pos a -ℤ pos t) ≡ pos a -ℤ pos t
  unfolding ◌-ℤ◌
  exact_difference a t h k =
      r.round-exact (pos a -ℤ pos t) (difference_bounded a t exact_bound h k).0
        (difference_bounded a t exact_bound h k).1

  times_level : (p : ℕ) → pos p *ℤ level ≡ pos (p * level)
  unfolding ◌*ℤ◌
  times_level p = ground arith

  score-exact : (p : ℕ) (t : Time) → IsExact p t → score r (pos p) t ≡ pos (p * level) -ℤ pos t
  unfolding score
  score-exact p t e =
      ap (λ x. r.round (r.round (x *ℤ level) -ℤ r.round (pos t))) (exact_pos p (omega (arith, e.0)))
      ∙ ap (λ x. r.round (r.round x -ℤ r.round (pos t))) (times_level p)
      ∙ ap (λ x. r.round (x -ℤ r.round (pos t))) (exact_pos (p * level) e.0)
      ∙ ap (λ x. r.round (pos (p * level) -ℤ x)) (exact_pos t e.1)
      ∙ exact_difference (p * level) t e.0 e.1

  difference_lt : (a b t u : ℕ) → t + b < u + a → pos b -ℤ pos u <ℤ pos a -ℤ pos t
  unfolding ◌-ℤ◌
  difference_lt a b t u h = ground (arith, h)

  score_lt :
      (p q : ℕ) (t u : Time)
      → IsExact p t
      → IsExact q u
      → t + q * level < u + p * level
      → score r (pos q) u <ℤ score r (pos p) t
  score_lt p q t u e f h =
      rw (score-exact p t e) (rw (score-exact q u f) (difference_lt (p * level) (q * level) t u h))

  dequeued :
      (s t : Carrier) (b : Uuid) → dequeue r false s ≡ ok (some b, t) → zpopmax s ≡ some (b, t)
  unfolding dequeue
  dequeued s t b e = ground arith

  -- While a task waits, no other waiting task is dequeued that was queued later by more than ten
  -- thousand seconds for each level of priority that it is ahead: within one priority the queue is
  -- first in, first out, and across priorities age counts against priority. This is said of
  -- tasks with priorities from 0 to 900,719 and times of at most 2^53, whose scores are computed exactly.
  pub dequeue-outranked :
      (s t : Carrier) (a b : Uuid) (p q : ℕ) (ta tb : Time)
      → score_of s a ≡ some (score r (pos p) ta)
      → score_of s b ≡ some (score r (pos q) tb)
      → IsExact p ta
      → IsExact q tb
      → ta + q * level < tb + p * level
      → dequeue r false s ≢ ok (some b, t)
  dequeue-outranked s t a b p q ta tb ha hb ea eb h e =
      let (x, hx, le) = zpopmax-greatest s t b a _ (dequeued s t b e) ha in
      absurd (
        omega (
          arith,
          score_lt p q ta tb ea eb h,
          subst (λ y. score r (pos p) ta ≤ℤ y) (some-injective _ _ (sym hx ∙ hb)) le,
        ))

  -- An enqueued task waits with the score of its priority and time, and the others as before.
  pub enqueue-score_of :
      (s : Carrier) (a b : Uuid) (priority : ℤ) (t : Time) {s' : Carrier}
      → enqueue r false a priority t s ≡ ok s'
      → score_of s' b ≡ (if a == b then some (score r priority t) else score_of s b)
  unfolding enqueue
  enqueue-score_of s a b priority t h = ground (arith, r.score_of-zadd s a b (score r priority t))
