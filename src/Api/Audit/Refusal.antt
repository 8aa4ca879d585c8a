-- ===== src/Api/Audit/Refusal.antt =====
-- control-plane/internal/api/middleware/auth.go: the event of the audit log that a refused authentication writes.
use Prim.Native.String.{len, slice}
use grid_token_util.Prelude.{
  ℕ, ◌≡◌, ◌⊎◌, inl, inr, String, Bool, Option, none, some, List, Memᴰ, if◌then◌else◌, str_eq, ltb,
  arith, Bool-cases, Option-cases, find-Memᴰ, ◌&&◌,
}
use grid_token_util.Prelude.Results.{ok, err, Result-cases}
use grid_token_util.Prelude.Replies.{refused}
use grid_token_util.Domain.{Uuid, Time, ApiKey}
use grid_token_util.Security.{Bytes, ArgonParams, verify_api_key}
use grid_token_util.Store.ApiKeys.{get_api_key_by_prefix, is_live}
use grid_token_util.Api.Auth.{bytes, bearer_token, public_len, auth}
use grid_token_util.Api.Audit.{AuditEvent, api_key, key_prefix, nil_uuid, auth_failure}

module _ (id_key : ArgonParams → Bytes → Bytes → Bytes) where
  -- The calls of `writeAuthAuditEvent` in `Auth`, on the paths that `auth` has.
  unfoldable pub refusal : Uuid → Bool → Time → List ApiKey → String → Option AuditEvent
  unfolding bearer_token get_api_key_by_prefix verify_api_key bytes auth_failure
  refusal event_id fault now keys header =
      if str_eq header "" then none else elim (bearer_token header) [
        | none ↦ none
        | some plaintext ↦
            if ltb (len plaintext) public_len
            then none
            else elim (get_api_key_by_prefix fault now (slice plaintext 0 public_len) keys) [
              | err e ↦
                  some
                    (auth_failure event_id now (key_prefix (slice plaintext 0 public_len)) nil_uuid)
              | ok k ↦
                  if verify_api_key id_key (bytes plaintext) (bytes k.key_hash)
                  then none
                  else some (auth_failure event_id now (api_key k.id) k.org_unit_id)
            ]
      ]

-- What the log is told of a refusal: nothing where no key was looked up; the prefix and the nil organisation where no live key has it;
-- a stored key and its organisation where the token does not meet its hash.
abbrev pub Tells : Uuid → Time → List ApiKey → String → Option AuditEvent → Type 0
Tells event_id now keys text event =
    ((event ≡ none)
      × ((text ≡ "missing Authorization header")
          ⊎ ((text ≡ "malformed Authorization header") ⊎ (text ≡ "invalid key format"))))
    ⊎ (((prefix : String) × (event ≡ some (auth_failure event_id now (key_prefix prefix) nil_uuid))
          × (text ≡ "invalid or expired key"))
        ⊎ ((k : ApiKey) × Memᴰ k keys
            × (event ≡ some (auth_failure event_id now (api_key k.id) k.org_unit_id))
            × (text ≡ "invalid credentials")))

module _ (id_key : ArgonParams → Bytes → Bytes → Bytes) (event_id : Uuid) (fault : Bool)
    (now : Time) (keys : List ApiKey) (header : String) where
  stored :
      (prefix : String) (k : ApiKey)
      → get_api_key_by_prefix fault now prefix keys ≡ ok k
      → Memᴰ k keys
  unfolding get_api_key_by_prefix
  stored prefix k h =
      find-Memᴰ (λ j. str_eq j.key_prefix prefix && is_live now j) keys k (ground (arith, h))

  -- A refused authentication tells the log as its answer says.
  pub refusal-Tells :
      {code : ℕ} {text : String}
      → auth id_key fault now keys header ≡ refused code text
      → (code ≡ 401) × Tells event_id now keys text (refusal id_key event_id fault now keys header)
  unfolding auth refusal
  refusal-Tells h = elim (Bool-cases (str_eq header "")) [
    | inl a ↦ (ground (arith, h, a), inl (ground (arith, a), inl (ground (arith, h, a))))
    | inr a ↦ elim (Option-cases (bearer_token header)) [
      | inl b ↦
          (ground (arith, h, a, b), inl (ground (arith, a, b), inr (inl (ground (arith, h, a, b)))))
      | inr (t, b) ↦ elim (Bool-cases (ltb (len t) public_len)) [
        | inl d ↦ (
          ground (arith, h, a, b, d),
          inl (ground (arith, a, b, d), inr (inr (ground (arith, h, a, b, d)))),
        )
        | inr d ↦
            elim (Result-cases (get_api_key_by_prefix fault now (slice t 0 public_len) keys)) [
              | inl (x, e) ↦ (
                ground (arith, h, a, b, d, e),
                inr (
                    inl (
                      slice t 0 public_len,
                      ground (arith, a, b, d, e),
                      ground (arith, h, a, b, d, e),
                    )),
              )
              | inr (k, e) ↦
                  elim (Bool-cases (verify_api_key id_key (bytes t) (bytes k.key_hash))) [
                    | inl v ↦ absurd (ground (arith, h, a, b, d, e, v))
                    | inr v ↦ (
                      ground (arith, h, a, b, d, e, v),
                      inr (
                          inr (
                            k,
                            stored (slice t 0 public_len) k e,
                            ground (arith, a, b, d, e, v),
                            ground (arith, h, a, b, d, e, v),
                          )),
                    )
                  ]
            ]
      ]
    ]
  ]
