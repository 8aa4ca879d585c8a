-- ===== src/Worker/Task.antt =====
-- The task assignment of grid-worker/internal/controlplane/client.go.
use grid_token_util.Prelude.{String, List}
use grid_token_util.Prelude.Int.{ℤ}

pub record TaskAssignment : Type 0 where
  pub task_id : String
  pub title : String
  pub description : String
  pub task_type : String
  pub ai_agent : String
  pub options : List (String × String)
  pub repo_url : String
  pub branch : String
  pub timeout_sec : ℤ
