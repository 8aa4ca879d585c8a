-- ===== src/Clock.antt =====
-- What both programs take from Go's package `time`: a time in a zone. The zone database is not part of
-- the repository, so `LoadLocation` and `In` are parameters.
use grid_token_util.Prelude.{ℕ, String, Option}
use grid_token_util.Domain.{Time}

pub record Local : Type 0 where
  pub weekday : ℕ
  pub hour : ℕ

pub record Zones : Type 0 where
  pub utc : Time → Local
  pub load_location : String → Option (Time → Local)
