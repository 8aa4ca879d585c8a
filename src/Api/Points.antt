-- ===== src/Api/Points.antt =====
-- control-plane/internal/api/handlers/browniepoints.go and health.go.
use grid_token_util.Prelude.{ℕ, String, Bool, ◌&&◌, Option, none, some, List, if◌then◌else◌}
use grid_token_util.Prelude.Int.{ℤ, pos, pos_part, ltb_ℤ, leb_ℤ}
use grid_token_util.Prelude.Results.{ok, err}
use grid_token_util.Prelude.Replies.{Reply, answer, refused}
use grid_token_util.Store.Leaderboard.{LeaderboardEntry, get_leaderboard}
use grid_token_util.Api.Context.{Context}

-- The parameter `limit` after `strconv.Atoi`, `none` where it is absent or does not parse.
unfoldable pub board_limit : Option ℤ → ℕ
board_limit none = 10
board_limit (some v) = if ltb_ℤ (pos 0) v && leb_ℤ v (pos 100) then pos_part v else 10

unfoldable pub leaderboard :
    Bool → Context → Option ℤ → List LeaderboardEntry → Reply (List LeaderboardEntry)
unfolding board_limit get_leaderboard
leaderboard fault c limit view = elim c.org_unit_id [
  | none ↦ refused 401 "unauthenticated"
  | some org ↦ elim (get_leaderboard fault org (board_limit limit) view) [
    | err e ↦ refused 500 "internal error"
    | ok entries ↦ answer entries
  ]
]

-- The status of `Liveness`.
abbrev pub liveness : ℕ
liveness = 200

-- What `Readiness` says of the two stores, each `none` where its ping answers, and its status.
pub record Health : Type 0 where
  pub postgres : Option String
  pub redis : Option String
  pub code : ℕ

unfoldable pub readiness : Option String → Option String → Health
readiness db redis = record {
  postgres = db;
  redis = redis;
  code = elim db [ none ↦ elim redis [ none ↦ 200 | some _ ↦ 503 ] | some _ ↦ 503 ];
}
