-- ===== src/Api/RateLimit/Drip.antt =====
-- What the limiter of control-plane/internal/api/middleware/ratelimit.go counts over a run of requests.
use grid_token_util.Prelude.{
  List, [], ◌∷◌, All, length, ℕ, suc, ◌+◌, ◌≡◌, ◌∙◌, ◌≤◌, ◌<◌, false, some, arith,
}
use grid_token_util.Domain.{Uuid, Time}
use grid_token_util.Api.RateLimit.{Counters, window, served, limited, rate_limit}

module _ (r : Counters) (limit : ℕ) (org : Uuid) where
  open r use {Carrier, value, value-incr, value-expire_before, value-expire_after}

  -- Requests of one organisation that Redis answers: the first at `t`, and each gap is the time to the next one, the last of which
  -- is not made.
  unfoldable pub drip : List Time → Time → Carrier → Carrier
  drip [] t s = s
  drip (gap ∷ gaps) t s = drip gaps (t + gap) (rate_limit r limit false (some org) t s).0

  counted :
      (t u : Time) (s : Carrier)
      → t ≤ u
      → u < t + window
      → value (rate_limit r limit false (some org) t s).0 org u ≡ suc (value s org t)
  unfolding rate_limit
  counted t u s h k = value-expire_before _ t org window u h k ∙ value-incr s t org

  -- When the request after the gaps comes.
  unfoldable pub at : List Time → Time → Time
  at [] t = t
  at (gap ∷ gaps) t = at gaps (t + gap)

  abbrev pub AreShort : List Time → Type 0
  AreShort gaps = All (λ gap. gap < window) gaps

  drip-value :
      (gaps : List Time) (t : Time) (s : Carrier)
      → AreShort gaps
      → value (drip gaps t s) org (at gaps t) ≡ value s org t + length gaps
  unfolding drip at
  drip-value [] t s h = omega arith
  drip-value (gap ∷ gaps) t s h = omega (
    arith,
    drip-value gaps (t + gap) (rate_limit r limit false (some org) t s).0 h.1,
    counted t (t + gap) s (omega arith) (omega (arith, h.0)),
  )

  -- Whatever the limit, after `limit` requests of an organisation or more, each made less than a minute before the next, the next
  -- one is refused, however few of them fall into one minute: each request sets the expiry of the counter again.
  pub drip-limited :
      (gaps : List Time) (t : Time) (s : Carrier)
      → AreShort gaps
      → limit ≤ length gaps
      → (rate_limit r limit false (some org) (at gaps t) (drip gaps t s)).1 ≡ limited
  unfolding rate_limit
  drip-limited gaps t s h k =
      ground (arith, drip-value gaps t s h, value-incr (drip gaps t s) (at gaps t) org)

  -- A counter that shows nothing serves the first `limit` requests of a run whose gaps are below a minute.
  pub drip-served :
      (gaps : List Time) (t : Time) (s : Carrier)
      → AreShort gaps
      → value s org t ≡ 0
      → length gaps < limit
      → (rate_limit r limit false (some org) (at gaps t) (drip gaps t s)).1 ≡ served
  unfolding rate_limit
  drip-served gaps t s h z k =
      ground (arith, drip-value gaps t s h, value-incr (drip gaps t s) (at gaps t) org)
