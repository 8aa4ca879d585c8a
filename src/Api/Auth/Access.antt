-- ===== src/Api/Auth/Access.antt =====
-- Whom control-plane/internal/api/middleware/auth.go lets through.
use Prim.Native.String.{slice}
use grid_token_util.Prelude.{
  ◌≡◌, ◌≢◌, refl, sym, subst, ◌↔◌, ◌⊎◌, inl, inr, String, Bool, true, false, ◌&&◌, some, List, [],
  ◌∷◌, str_eq, str_eq_iff, ◌∙◌, arith, All, All-All, find, find-All, find-Memᴰ, Memᴰ-All, update,
  update-All, Option-cases, Bool-cases, and_true, Memᴰ,
}
use grid_token_util.Prelude.Results.{ok, Result-cases}
use grid_token_util.Prelude.Replies.{answer}
use grid_token_util.Domain.{Uuid, Time, ApiKey}
use grid_token_util.Store.ApiKeys.{get_api_key_by_prefix, revoke_api_key, is_live, is_revocable}
use grid_token_util.Security.{Bytes, ArgonParams, verify_api_key}
use grid_token_util.Api.Context.{Context}
use grid_token_util.Api.Auth.{
  auth, bytes, bearer_token, public_len, has_scope, scope_required, context_of,
}

-- What a request that is let through has shown.
pub record Admits (id_key : ArgonParams → Bytes → Bytes → Bytes) (now : Time) (keys : List ApiKey)
    (header : String) (c : Context) : Type 0 where
  pub token : String
  pub key : ApiKey
  pub stored : Memᴰ key keys
  pub carried : bearer_token header ≡ some token
  pub prefixed : key.key_prefix ≡ slice token 0 public_len
  pub live : is_live now key ≡ true
  pub verified : verify_api_key id_key (bytes token) (bytes key.key_hash) ≡ true
  pub context : c ≡ context_of key

found :
    (fault : Bool) (now : Time) (prefix : String) (keys : List ApiKey) (k : ApiKey)
    → get_api_key_by_prefix fault now prefix keys ≡ ok k
    → find (λ j. str_eq j.key_prefix prefix && is_live now j) keys ≡ some k
unfolding get_api_key_by_prefix
found fault now prefix keys k h = ground arith

found_live :
    (fault : Bool) (now : Time) (prefix : String) (keys : List ApiKey) (k : ApiKey)
    → get_api_key_by_prefix fault now prefix keys ≡ ok k
    → is_live now k ≡ true
found_live fault now prefix keys k h =
    (and_true _ _
      (find-All (λ j. Unit {0}) (λ j. str_eq j.key_prefix prefix && is_live now j) keys k
        (found fault now prefix keys k h) (All-All (λ j. tt) keys)).0).1

found_prefix :
    (fault : Bool) (now : Time) (prefix : String) (keys : List ApiKey) (k : ApiKey)
    → get_api_key_by_prefix fault now prefix keys ≡ ok k
    → k.key_prefix ≡ prefix
found_prefix fault now prefix keys k h =
    (str_eq_iff k.key_prefix prefix).0
      (and_true _ _
        (find-All (λ j. Unit {0}) (λ j. str_eq j.key_prefix prefix && is_live now j) keys k
          (found fault now prefix keys k h) (All-All (λ j. tt) keys)).0).0

module _ (id_key : ArgonParams → Bytes → Bytes → Bytes) (fault : Bool) (now : Time)
    (keys : List ApiKey) (header : String) (c : Context)
    (h : auth id_key fault now keys header ≡ answer c) where
  token_of : (t : String) × (bearer_token header ≡ some t)
  unfolding auth
  token_of = elim (Option-cases (bearer_token header)) [
    | inl e ↦ absurd (ground (arith, h, e))
    | inr r ↦ r
  ]

  key_of :
      (t : String)
      → bearer_token header ≡ some t
      → (k : ApiKey) × (get_api_key_by_prefix fault now (slice t 0 public_len) keys ≡ ok k)
  unfolding auth
  key_of t e = elim (Result-cases (get_api_key_by_prefix fault now (slice t 0 public_len) keys)) [
    | inl (x, f) ↦ absurd (ground (arith, h, e, f))
    | inr r ↦ r
  ]

  -- A request that is let through carries a token, and its first eleven characters are the prefix of a stored key that is neither
  -- revoked nor expired and whose hash the token meets; it goes on with the identity and the scopes of that key.
  pub auth-Admits : Admits id_key now keys header c
  unfolding auth
  auth-Admits =
      let (t, e) = token_of in
      let (k, f) = key_of t e in
      record {
        token = t;
        key = k;
        carried = e;
        stored = find-Memᴰ _ keys k (found fault now (slice t 0 public_len) keys k f);
        prefixed = found_prefix fault now (slice t 0 public_len) keys k f;
        live = found_live fault now (slice t 0 public_len) keys k f;
        verified = ground (arith, h, e, f);
        context = ground (arith, h, e, f);
      }

revoked :
    (fault : Bool) (now : Time) (i org : Uuid) (keys : List ApiKey) {rows : List ApiKey}
    → revoke_api_key fault now i org keys ≡ ok rows
    → update (is_revocable i org) (λ k. record k { revoked_at = some now }) keys ≡ rows
unfolding revoke_api_key
revoked fault now i org keys h = ground arith

-- No row is revocable after a revocation.
revoke-All :
    (fault : Bool) (now : Time) (i org : Uuid) (keys : List ApiKey) {rows : List ApiKey}
    → revoke_api_key fault now i org keys ≡ ok rows
    → All (λ k. is_revocable i org k ≡ false) rows
unfolding revoke_api_key
revoke-All fault now i org keys h =
    subst (λ rows. All (λ k. is_revocable i org k ≡ false) rows) (revoked fault now i org keys h)
      (update-All (is_revocable i org) (λ k. record k { revoked_at = some now }) keys
        (λ k _ _. ground arith) (λ k _ e. e) (All-All {P = λ k. Unit {0}} (λ k. tt) keys))

-- After a revocation no request is let through with the key that the organisation revoked.
pub auth-revoked :
    (id_key : ArgonParams → Bytes → Bytes → Bytes) (fault revoke_fails : Bool) (now then : Time)
    (i org : Uuid) (keys rows : List ApiKey) (header : String) (c : Context)
    → revoke_api_key revoke_fails now i org keys ≡ ok rows
    → auth id_key fault then rows header ≡ answer c
    → c.org_unit_id ≡ some org
    → c.api_key_id ≢ some i
auth-revoked id_key fault revoke_fails now then i org keys rows header c hr h ho hi =
    let a = auth-Admits id_key fault then rows header c h in
    absurd (
      ground (
        arith,
        a.live,
        a.context,
        hi,
        ho,
        Memᴰ-All (λ k. is_revocable i org k ≡ false) rows a.stored
            (revoke-All revoke_fails now i org keys hr),
      ))

has_scope_sound :
    (scope : String) (scopes : List String)
    → has_scope scope scopes ≡ true
    → Memᴰ scope scopes ⊎ Memᴰ "admin" scopes
unfolding has_scope
has_scope_sound scope [] h = cc
has_scope_sound scope (s ∷ rest) h = elim (Bool-cases (str_eq s scope)) [
  | inl e ↦ inl (Memᴰ.head (sym ((str_eq_iff s scope).0 e)))
  | inr e ↦ elim (Bool-cases (str_eq s "admin")) [
    | inl f ↦ inr (Memᴰ.head (sym ((str_eq_iff s "admin").0 f)))
    | inr f ↦ elim (has_scope_sound scope rest (ground (arith, h, e, f))) [
      | inl m ↦ inl (Memᴰ.tail m)
      | inr m ↦ inr (Memᴰ.tail m)
    ]
  ]
]

has_scope_complete :
    (scope x : String) (scopes : List String)
    → Memᴰ x scopes
    → (x ≡ scope) ⊎ (x ≡ "admin")
    → has_scope scope scopes ≡ true
unfolding has_scope
has_scope_complete scope x [] m h = elim m [ ]
has_scope_complete scope x (s ∷ rest) (Memᴰ.head e) (inl h) =
    ground (arith, (str_eq_iff s scope).1 (sym e ∙ h))
has_scope_complete scope x (s ∷ rest) (Memᴰ.head e) (inr h) =
    ground (arith, (str_eq_iff s "admin").1 (sym e ∙ h))
has_scope_complete scope x (s ∷ rest) (Memᴰ.tail m) h =
    ground (arith, has_scope_complete scope x rest m h)

-- A request goes on past a scope check, with the context that it has, exactly when its key carries the scope or
-- `admin`.
pub scope_required_iff :
    (scope : String) (scopes : List String) (c : Context)
    → c.scopes ≡ some scopes
    → (scope_required scope c ≡ answer c) ↔ (Memᴰ scope scopes ⊎ Memᴰ "admin" scopes)
unfolding scope_required
scope_required_iff scope scopes c h = (
  λ e. has_scope_sound scope scopes (ground (arith, h, e)),
  λ m. ground (
    arith,
    h,
    elim m as (λ _. has_scope scope scopes ≡ true) [
      | inl x ↦ has_scope_complete scope scope scopes x (inl refl)
      | inr x ↦ has_scope_complete scope "admin" scopes x (inr refl)
    ],
  ),
)
