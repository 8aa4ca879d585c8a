-- ===== src/Worker/Client.antt =====
-- grid-worker/internal/controlplane/client.go: what becomes of an exchange with the control plane. The
-- HTTP client is not part of the repository: an exchange is an argument, and `none` stands for the error `nil`.
use grid_token_util.Prelude.{
  ℕ, ◌==◌, Bool, true, false, not, ◌&&◌, ◌||◌, Option, none, some, if◌then◌else◌, leb,
}

-- `AuthError`, `ServerError`, and an error without a type of its own; `fmt.Errorf` with `%w` keeps the type.
pub data ClientError : Type 0 where
  auth_error server_error plain_error : ClientError

pub record Response : Type 0 where
  pub status : ℕ
  pub is_readable : Bool
  pub has_body : Bool
  pub is_decodable : Bool

-- `unsent`: the request is not built, not sent or not answered.
pub data Exchange : Type 0 where
  unsent : Exchange
  response : Response → Exchange

-- `doJSON`; `out` tells whether the caller wants the body decoded.
unfoldable pub do_json : Bool → Exchange → Option ClientError
do_json out unsent = some plain_error
do_json out (response r) =
    if not r.is_readable
    then some plain_error
    else if r.status == 401
    then some auth_error
    else if leb 500 r.status
    then some server_error
    else if leb 400 r.status
    then some plain_error
    else if out && r.has_body && not r.is_decodable
    then some plain_error
    else none

unfoldable pub register : Exchange → Option ClientError
unfolding do_json
register ex = do_json true ex

unfoldable pub heartbeat : Exchange → Option ClientError
unfolding do_json
heartbeat ex = do_json true ex

unfoldable pub update_task_status : Exchange → Option ClientError
unfolding do_json
update_task_status ex = do_json false ex

unfoldable pub submit_output : Exchange → Option ClientError
submit_output unsent = some plain_error
submit_output (response r) = if r.status == 202 || r.status == 200 then none else some plain_error

unfoldable pub validate_api_key : Exchange → Option ClientError
validate_api_key unsent = some plain_error
validate_api_key (response r) =
    if r.status == 401 || leb 500 r.status then some plain_error else none
