-- ===== src/Api/Context.antt =====
-- What the authentication of control-plane/internal/api/middleware/auth.go leaves in the context of a
-- request. `none` is a value that is absent from the context.
use grid_token_util.Prelude.{String, Option, List}
use grid_token_util.Domain.{Uuid}

pub record Context : Type 0 where
  pub org_unit_id : Option Uuid
  pub worker_id : Option (Option Uuid)
  pub api_key_id : Option Uuid
  pub scopes : Option (List String)
