-- ===== src/Api/RateLimit/Sample.antt =====
-- A counter and its expiry for each key: one way to meet the interface of the limiter.
use grid_token_util.Prelude.{
  ℕ, suc, ◌+◌, ◌≡◌, refl, ◌≤◌, ◌<◌, Option, none, some, arith, if◌then◌else◌, leb, ◌==◌,
}
use grid_token_util.Domain.{Uuid, Time}
use grid_token_util.Api.RateLimit.{Counters}

abbrev pub Count : Type 0
Count = ℕ × Option Time

abbrev pub shown : Count → Time → ℕ
shown (c, none) t = c
shown (c, some e) t = if leb e t then 0 else c

abbrev pub counted : Count → Time → Count
counted (c, none) t = (suc c, none)
counted (c, some e) t = if leb e t then (1, none) else (suc c, some e)

abbrev pub set_at : (Uuid → Count) → Uuid → Count → Uuid → Count
set_at s k x j = if k == j then x else s j

pub shown-counted : (x : Count) (t : Time) → shown (counted x t) t ≡ suc (shown x t)
shown-counted (c, none) t = refl
shown-counted (c, some e) t = ground arith

pub set_at-same : (s : Uuid → Count) (k : Uuid) (x : Count) → set_at s k x k ≡ x
set_at-same s k x = ground arith

pub shown-before : (c : ℕ) (e t : Time) → t < e → shown (c, some e) t ≡ c
shown-before c e t h = ground arith

pub shown-after : (c : ℕ) (e t : Time) → e ≤ t → shown (c, some e) t ≡ 0
shown-after c e t h = ground arith

abbrev pub sample_counters : Counters
sample_counters = record {
  Carrier = Uuid → Count;
  value = λ s k t. shown (s k) t;
  incr = λ s now k. set_at s k (counted (s k) now);
  expire = λ s now k w. set_at s k (shown (s k) now, some (now + w));
  value-incr = λ s now k. rw (set_at-same s k (counted (s k) now)) (shown-counted (s k) now);
  value-expire_before = λ s now k w t h j.
      rw (set_at-same s k (shown (s k) now, some (now + w)))
        (shown-before (shown (s k) now) (now + w) t j);
  value-expire_after = λ s now k w t h.
      rw (set_at-same s k (shown (s k) now, some (now + w)))
        (shown-after (shown (s k) now) (now + w) t h);
}
