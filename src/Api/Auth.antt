-- ===== src/Api/Auth.antt =====
-- control-plane/internal/api/middleware/auth.go. A header is ASCII text, as the keys are. The audit entries and
-- the time of the last use, which is written in the background, are left out.
pub mod Access
use Prim.Native.String.{len, slice, [] as no_chars, ◌∷◌ as ◌∷ₛ◌, ◌++◌ as str_append}
use Prim.Native.Char.{Char, code}
use text.Mathlib.Text.{find?}
use grid_token_util.Prelude.{
  ℕ, ◌+◌, ◌==◌, String, Bool, true, false, not, ◌&&◌, ◌||◌, Option, none, some, List, [], ◌∷◌,
  if◌then◌else◌, str_eq, ltb, leb,
}
use grid_token_util.Prelude.Results.{Result, ok, err}
use grid_token_util.Prelude.Replies.{Reply, answer, refused}
use grid_token_util.Domain.{Uuid, Time, ApiKey}
use grid_token_util.Store.ApiKeys.{get_api_key_by_prefix}
use grid_token_util.Security.{Bytes, ArgonParams, verify_api_key}
use grid_token_util.Api.Context.{Context}

unfoldable pub bytes : String → Bytes
bytes no_chars = []
bytes (c ∷ₛ s) = code c ∷ bytes s

-- `strings.EqualFold` on ASCII.
abbrev fold : ℕ → ℕ
fold c = if leb 65 c && leb c 90 then c + 32 else c

unfoldable pub equal_fold : String → String → Bool
equal_fold no_chars no_chars = true
equal_fold (c ∷ₛ s) (d ∷ₛ t) = fold (code c) == fold (code d) && equal_fold s t
equal_fold _ _ = false

-- The token after the first space, where the scheme is `Bearer`.
unfoldable pub bearer_token : String → Option String
unfolding equal_fold
bearer_token header = elim (find? header " ") [
  | none ↦ none
  | some i ↦
      if equal_fold (slice header 0 i) "Bearer"
      then some (slice header (i + 1) (len header))
      else none
]

-- `len(KeyPrefix) + KeyPrefixLen`.
abbrev pub public_len : ℕ
public_len = 3 + 8

abbrev pub context_of : ApiKey → Context
context_of k = record {
  org_unit_id = some k.org_unit_id;
  worker_id = some k.worker_id;
  api_key_id = some k.id;
  scopes = some k.scopes;
}

module _ (id_key : ArgonParams → Bytes → Bytes → Bytes) where
  -- `Auth`: the context that the request goes on with. `header` is empty where it is absent.
  unfoldable pub auth : Bool → Time → List ApiKey → String → Reply Context
  unfolding bearer_token get_api_key_by_prefix verify_api_key bytes
  auth fault now keys header =
      if str_eq header ""
      then refused 401 "missing Authorization header"
      else elim (bearer_token header) [
        | none ↦ refused 401 "malformed Authorization header"
        | some plaintext ↦
            if ltb (len plaintext) public_len
            then refused 401 "invalid key format"
            else elim (get_api_key_by_prefix fault now (slice plaintext 0 public_len) keys) [
              | err e ↦ refused 401 "invalid or expired key"
              | ok k ↦
                  if verify_api_key id_key (bytes plaintext) (bytes k.key_hash)
                  then answer (context_of k)
                  else refused 401 "invalid credentials"
            ]
      ]

unfoldable pub has_scope : String → List String → Bool
has_scope scope [] = false
has_scope scope (s ∷ rest) = str_eq s scope || str_eq s "admin" || has_scope scope rest

unfoldable pub scope_required : String → Context → Reply Context
unfolding has_scope
scope_required scope c = elim c.scopes [
  | none ↦ refused 403 "no scopes on token"
  | some scopes ↦
      if has_scope scope scopes
      then answer c
      else refused 403 (str_append "insufficient scope: " scope)
]
