-- ===== src/Store/Db.antt =====
-- The tables of control-plane/migrations that the modelled code reads and writes.
use grid_token_util.Prelude.{List}
use grid_token_util.Domain.{Task, Worker, OutputPackage, BrownieEvent, ApiKey}

pub record Db : Type 0 where
  pub tasks : List Task
  pub workers : List Worker
  pub outputs : List OutputPackage
  pub ledger : List BrownieEvent
  pub api_keys : List ApiKey
