-- ===== src/Store/Leaderboard.antt =====
-- control-plane/internal/store/postgres/brownie.go: the leaderboard, which is read from a materialised view. The view holds what the
-- ledger held when it was last refreshed.
use grid_token_util.Prelude.{ℕ, ◌==◌, Bool, List, if◌then◌else◌, take, select}
use grid_token_util.Prelude.Int.{ℤ, ltb_ℤ}
use grid_token_util.Prelude.Order.{sort}
use grid_token_util.Prelude.Results.{Result, ok, err, query_failed}
use grid_token_util.Domain.{Uuid}

pub record LeaderboardEntry : Type 0 where
  pub worker_id : Uuid
  pub org_unit_id : Uuid
  pub total_points : ℤ
  pub event_count : ℕ

-- `ORDER BY total_points DESC`.
abbrev pub ahead : LeaderboardEntry → LeaderboardEntry → Bool
ahead a b = ltb_ℤ b.total_points a.total_points

unfoldable pub get_leaderboard :
    Bool → Uuid → ℕ → List LeaderboardEntry → Result (List LeaderboardEntry)
get_leaderboard fault org limit view =
    if fault
    then err query_failed
    else ok (take limit (sort ahead (select (λ (e : LeaderboardEntry). e.org_unit_id == org) view)))
