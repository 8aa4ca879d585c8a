-- ===== src/Api/Keys/Rotation.antt =====
-- The keys that the handlers of control-plane/internal/api/handlers/apikeys.go change.
use grid_token_util.Prelude.{
  ◌≡◌, refl, ◌==◌, String, Bool, true, false, not, none, some, List, [], ◌∷◌, arith, select, update,
  Bool-cases, inl, inr, find, find-All, find-update, All-All, Option-cases,
}
use grid_token_util.Prelude.Replies.{answer}
use grid_token_util.Domain.{Uuid, ApiKey}
use grid_token_util.Store.Db.{Db}
use grid_token_util.Store.ApiKeys.{is_owned, is_revocable, rotated}
use grid_token_util.Api.Context.{Context}
use grid_token_util.Api.Keys.{KeyEnv, Generated, rotate_key, revoke_key}

-- The rows of the other organisations.
abbrev pub is_foreign : Uuid → ApiKey → Bool
is_foreign org k = not (k.org_unit_id == org)

select-update_foreign :
    (org : Uuid) (p : ApiKey → Bool) (f : ApiKey → ApiKey) (keys : List ApiKey)
    → ((k : ApiKey) → p k ≡ true → is_foreign org k ≡ false)
    → ((k : ApiKey) → (f k).org_unit_id ≡ k.org_unit_id)
    → select (is_foreign org) (update p f keys) ≡ select (is_foreign org) keys
select-update_foreign org p f [] own same = refl
select-update_foreign org p f (k ∷ ks) own same = elim (Bool-cases (p k)) [
  | inl e ↦ rw e (ground (arith, own k e, same k, select-update_foreign org p f ks own same))
  | inr e ↦ rw e (ground (arith, select-update_foreign org p f ks own same))
]

-- What a rotation by an organisation makes of a key.
pub record Rotates (i org : Uuid) (env : KeyEnv) (g : Generated) (keys keys' : List ApiKey)
    (k : ApiKey) : Type 0 where
  pub before : ApiKey
  pub was_stored : find (is_owned i org) keys ≡ some before
  pub is_rotated : k ≡ rotated env.now g.hash g.prefix before
  pub own_id : k.id ≡ i
  pub own_org : k.org_unit_id ≡ org
  pub unrevoked : k.revoked_at ≡ none
  pub is_stored : find (is_owned i org) keys' ≡ some k
  pub foreign : select (is_foreign org) keys' ≡ select (is_foreign org) keys

owned_row :
    (i org : Uuid) (keys : List ApiKey) (k : ApiKey)
    → find (is_owned i org) keys ≡ some k
    → (k.id ≡ i) × (k.org_unit_id ≡ org)
owned_row i org keys k h =
    let own = (find-All (λ j. Unit {0}) (is_owned i org) keys k h (All-All (λ j. tt) keys)).0 in
    (ground (arith, own), ground (arith, own))

-- A rotation that is answered is of a stored key of the caller's organisation: the answer is the row with the new hash and
-- prefix and not revoked, even if it was revoked before, the table holds that row in its place, and the plaintext is the new
-- key's. The keys of the other organisations stay as they are.
pub rotate_key-isolated :
    (c : Context) (i : Uuid) (env : KeyEnv) (db : Db) (org : Uuid) (g : Generated) {k : ApiKey}
    {plaintext : String}
    → c.org_unit_id ≡ some org
    → env.generated ≡ some g
    → (rotate_key c (some i) env db).1 ≡ answer (k, plaintext)
    → (plaintext ≡ g.plaintext)
      × Rotates i org env g db.api_keys (rotate_key c (some i) env db).0.api_keys k
unfolding rotate_key
rotate_key-isolated c i env db org g {k} ho hg h =
    elim (Option-cases (find (is_owned i org) db.api_keys)) [
      | inl e ↦ absurd (ground (arith, ho, hg, h, e))
      | inr (old, e) ↦
          let own = owned_row i org db.api_keys old e in
          (
            ground (arith, ho, hg, h, e),
            record {
              before = old;
              was_stored = e;
              is_rotated = ground (arith, ho, hg, h, e);
              own_id = ground (arith, ho, hg, h, e, own);
              own_org = ground (arith, ho, hg, h, e, own);
              unrevoked = ground (arith, ho, hg, h, e);
              is_stored = ground (
                arith,
                ho,
                hg,
                h,
                e,
                find-update (is_owned i org) (rotated env.now g.hash g.prefix) db.api_keys
                    (λ x p. p) e,
              );
              foreign = ground (
                arith,
                ho,
                hg,
                h,
                select-update_foreign org (is_owned i org) (rotated env.now g.hash g.prefix)
                    db.api_keys (λ k e. ground arith) (λ k. refl),
              );
            },
          )
    ]

-- A revocation touches no key of another organisation than the caller's.
pub revoke_key-isolated :
    (c : Context) (i : Uuid) (env : KeyEnv) (db : Db) (org : Uuid)
    → c.org_unit_id ≡ some org
    → select (is_foreign org) (revoke_key c (some i) env db).0.api_keys
      ≡ select (is_foreign org) db.api_keys
unfolding revoke_key
revoke_key-isolated c i env db org ho = ground (
  arith,
  ho,
  select-update_foreign org (is_revocable i org) (λ k. record k { revoked_at = some env.now })
      db.api_keys (λ k e. ground arith) (λ k. refl),
)
