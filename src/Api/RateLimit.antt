-- ===== src/Api/RateLimit.antt =====
-- control-plane/internal/api/middleware/ratelimit.go with `RateLimitIncr` of
-- control-plane/internal/store/redis/ratelimit.go, over an interface for the counters of Redis, which is
-- not part of the repository. The key is the one of the organisation.
pub mod Drip
pub mod Sample
use grid_token_util.Prelude.{
  ℕ, zero, suc, ◌+◌, ◌*◌, ◌≡◌, ◌≤◌, ◌<◌, Bool, true, false, Option, none, some, if◌then◌else◌, ltb,
}
use grid_token_util.Domain.{Uuid, Time}

-- INCR and EXPIRE, with their documented effect on the value that a counter shows at a time.
pub record Counters : Type 1 where
  pub Carrier : Type 0
  pub value : Carrier → Uuid → Time → ℕ
  pub incr : Carrier → Time → Uuid → Carrier
  pub expire : Carrier → Time → Uuid → Time → Carrier
  pub value-incr :
      (s : Carrier) (now : Time) (k : Uuid) → value (incr s now k) k now ≡ suc (value s k now)
  pub value-expire_before :
      (s : Carrier) (now : Time) (k : Uuid) (w t : Time)
      → now ≤ t
      → t < now + w
      → value (expire s now k w) k t ≡ value s k now
  pub value-expire_after :
      (s : Carrier) (now : Time) (k : Uuid) (w t : Time)
      → now + w ≤ t
      → value (expire s now k w) k t ≡ 0

-- `time.Minute`, in microseconds.
abbrev pub window : Time
window = 60 * 1000000

pub data Verdict : Type 0 where
  served limited : Verdict

module _ (r : Counters) where
  open r use {Carrier, value, incr, expire}

  -- The pipeline of INCR and EXPIRE, and the value that INCR returned.
  unfoldable pub rate_limit_incr : Carrier → Time → Uuid → Time → Carrier × ℕ
  rate_limit_incr s now k w = (expire (incr s now k) now k w, value (incr s now k) k now)

  -- `fault`: Redis does not answer; the request is served all the same.
  unfoldable pub rate_limit : ℕ → Bool → Option Uuid → Time → Carrier → Carrier × Verdict
  unfolding rate_limit_incr
  rate_limit limit fault none now s = (s, served)
  rate_limit limit fault (some org) now s =
      let (s', count) = rate_limit_incr s now org window in
      if fault then (s, served) else (s', if ltb limit count then limited else served)
