-- ===== src/Api/Keys.antt =====
-- control-plane/internal/api/handlers/apikeys.go. A request holds what is decoded from it. The texts of a
-- generated key (Security models how they are made) are an argument, missing where the random source fails.
pub mod Rotation
use grid_token_util.Prelude.{
  String, Bool, true, false, not, Option, none, some, List, if◌then◌else◌, str_eq,
}
use grid_token_util.Prelude.Results.{Result, ok, err}
use grid_token_util.Prelude.Replies.{
  Handler, Reply, answer, refused, ◌>>=◌, ◌>>◌, respond, check, require, fetch, commit,
}
use grid_token_util.Domain.{Uuid, Time, ApiKey}
use grid_token_util.Store.Db.{Db}
use grid_token_util.Store.ApiKeys.{
  create_api_key as insert_key, revoke_api_key as revoke_row, rotate_api_key as rotate_row,
}
use grid_token_util.Api.Context.{Context}

pub record Generated : Type 0 where
  pub plaintext : String
  pub prefix : String
  pub hash : String

-- `worker_id`: no field, or a field and the UUID that it parses to, `none` where it does not parse.
pub record CreateKeyRequest : Type 0 where
  pub name : String
  pub scopes : List String
  pub expires_at : Option Time
  pub worker_id : Option (Option Uuid)

pub record KeyEnv : Type 0 where
  pub now : Time
  pub generated : Option Generated
  pub fresh_id : Uuid
  pub fault : Bool

abbrev parsed_worker : Option (Option Uuid) → Option (Option Uuid)
parsed_worker none = some none
parsed_worker (some none) = none
parsed_worker (some (some w)) = some (some w)

abbrev pub new_key : Uuid → Option Uuid → CreateKeyRequest → Generated → KeyEnv → ApiKey
new_key org worker req g env = record {
  id = env.fresh_id;
  org_unit_id = org;
  worker_id = worker;
  key_hash = g.hash;
  key_prefix = g.prefix;
  name = req.name;
  scopes = req.scopes;
  created_at = env.now;
  expires_at = req.expires_at;
  revoked_at = none;
  last_used_at = none;
}

abbrev pub with_keys : Db → Result (List ApiKey) → Result Db
with_keys db (ok keys) = ok (record db { api_keys = keys })
with_keys db (err e) = err e

abbrev rotated_key : Result (ApiKey × List ApiKey) → Result ApiKey
rotated_key (ok r) = ok r.0
rotated_key (err e) = err e

abbrev rotated_rows : Result (ApiKey × List ApiKey) → Result (List ApiKey)
rotated_rows (ok r) = ok r.1
rotated_rows (err e) = err e

-- Answers the key's row and its plaintext.
unfoldable pub create_key :
    Context → Option CreateKeyRequest → KeyEnv → Handler Db (ApiKey × String)
unfolding insert_key
create_key c body env = do
  org ← require c.org_unit_id 401 "missing org context"
  req ← require body 400 "invalid JSON"
  check (not (str_eq req.name "")) 400 "name is required"
  g ← require env.generated 500 "failed to generate key"
  worker ← require (parsed_worker req.worker_id) 400 "invalid worker_id"
  commit (λ db. with_keys db (insert_key env.fault (new_key org worker req g env) db.api_keys)) 500
      "failed to store key"
  respond (new_key org worker req g env, g.plaintext)

unfoldable pub rotate_key : Context → Option Uuid → KeyEnv → Handler Db (ApiKey × String)
unfolding rotate_row
rotate_key c id env = do
  org ← require c.org_unit_id 401 "missing org context"
  i ← require id 400 "invalid key ID"
  g ← require env.generated 500 "failed to generate new key"
  k ←
      fetch (λ db. rotated_key (rotate_row env.fault env.now i org g.hash g.prefix db.api_keys)) 404
        "key not found or access denied"
  commit
      (λ db.
        with_keys db
          (rotated_rows (rotate_row env.fault env.now i org g.hash g.prefix db.api_keys)))
      404 "key not found or access denied"
  respond (k, g.plaintext)

unfoldable pub revoke_key : Context → Option Uuid → KeyEnv → Handler Db (Unit {0})
unfolding revoke_row
revoke_key c id env = do
  org ← require c.org_unit_id 401 "missing org context"
  i ← require id 400 "invalid key ID"
  commit (λ db. with_keys db (revoke_row env.fault env.now i org db.api_keys)) 404
      "key not found or access denied"
  respond tt
