-- ===== src/Store/ApiKeys.antt =====
-- control-plane/internal/store/postgres/apikeys.go over the rows of the table `api_keys`.
use grid_token_util.Prelude.{
  ◌==◌, String, Bool, true, false, not, ◌&&◌, Option, none, some, List, [], ◌∷◌, ◌++◌, str_eq, ltb,
  update, exists, find,
}
use grid_token_util.Prelude.Results.{
  Result, ok, err, not_found, query_failed, conflict, ◌>>◌, refuse_if,
}
use grid_token_util.Domain.{Uuid, Time, ApiKey}

abbrev pub is_key : Uuid → ApiKey → Bool
is_key id k = k.id == id

unfoldable pub create_api_key : Bool → ApiKey → List ApiKey → Result (List ApiKey)
create_api_key fault k keys = do
  refuse_if fault query_failed
  refuse_if (exists (is_key k.id) keys) conflict
  ok (keys ++ record k { revoked_at = none; last_used_at = none } ∷ [])

abbrev pub is_null : Option Time → Bool
is_null none = true
is_null (some t) = false

-- `revoked_at IS NULL AND (expires_at IS NULL OR expires_at > NOW())`.
abbrev pub is_live : Time → ApiKey → Bool
is_live now k = is_null k.revoked_at && elim k.expires_at [ none ↦ true | some t ↦ ltb now t ]

unfoldable pub get_api_key_by_prefix : Bool → Time → String → List ApiKey → Result ApiKey
get_api_key_by_prefix fault now prefix keys = do
  refuse_if fault query_failed
  elim (find (λ k. str_eq k.key_prefix prefix && is_live now k) keys) [
    | none ↦ err not_found
    | some k ↦ ok k
  ]

abbrev pub is_revocable : Uuid → Uuid → ApiKey → Bool
is_revocable id org k = k.id == id && k.org_unit_id == org && is_null k.revoked_at

unfoldable pub revoke_api_key : Bool → Time → Uuid → Uuid → List ApiKey → Result (List ApiKey)
revoke_api_key fault now id org keys = do
  refuse_if fault query_failed
  refuse_if (not (exists (is_revocable id org) keys)) not_found
  ok (update (is_revocable id org) (λ k. record k { revoked_at = some now }) keys)

unfoldable pub update_api_key_last_used : Bool → Time → Uuid → List ApiKey → Result (List ApiKey)
update_api_key_last_used fault now id keys = do
  refuse_if fault query_failed
  ok (update (is_key id) (λ k. record k { last_used_at = some now }) keys)

abbrev pub is_owned : Uuid → Uuid → ApiKey → Bool
is_owned id org k = k.id == id && k.org_unit_id == org

-- The `SET` list of `RotateAPIKey`.
abbrev pub rotated : Time → String → String → ApiKey → ApiKey
rotated now hash prefix k = record k {
  key_hash = hash;
  key_prefix = prefix;
  revoked_at = none;
  created_at = now;
}

-- Returns the rotated row (`RETURNING …`) with the rows.
unfoldable pub rotate_api_key :
    Bool → Time → Uuid → Uuid → String → String → List ApiKey → Result (ApiKey × List ApiKey)
rotate_api_key fault now id org hash prefix keys = do
  refuse_if fault query_failed
  elim (find (is_owned id org) keys) [
    | none ↦ err not_found
    | some k ↦
        ok (rotated now hash prefix k, update (is_owned id org) (rotated now hash prefix) keys)
  ]
