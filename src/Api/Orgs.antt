-- ===== src/Api/Orgs.antt =====
-- control-plane/internal/api/handlers/orgs.go. A request holds what is decoded from it, as in Api.Tasks.
pub mod Directory
pub mod Reads
use grid_token_util.Prelude.{
  ℕ, String, Bool, not, Option, none, some, List, [], ◌∷◌, if◌then◌else◌, str_eq,
}
use grid_token_util.Prelude.Replies.{
  Handler, Reply, answer, refused, ◌>>=◌, ◌>>◌, respond, check, require, fetch, commit,
}
use grid_token_util.Domain.{Uuid, Time}
use grid_token_util.Store.Orgs.{
  OrgUnit, PolicyCodec, create_org, get_org, list_orgs, update_org_policy,
}

pub record CreateOrgRequest : Type 0 where
  pub name : String
  pub plan_tier : String

-- `fresh_id` is `uuid.New()`, and `fails` whether the database does.
pub record OrgEnv : Type 0 where
  pub now : Time
  pub fresh_id : Uuid
  pub fails : Bool

-- `empty` is the map without entries.
unfoldable pub new_org : {M : Type 0} → M → OrgEnv → CreateOrgRequest → OrgUnit M
new_org empty env req = record {
  id = env.fresh_id;
  name = req.name;
  plan_tier = if str_eq req.plan_tier "" then "free" else req.plan_tier;
  policy = empty;
  created_at = env.now;
  updated_at = env.now;
}

module _ {J M W : Type 0} (codec : PolicyCodec J M W) where
  unfoldable pub create :
      M → Option CreateOrgRequest → OrgEnv → Handler (List (OrgUnit J)) (OrgUnit M)
  unfolding new_org create_org
  create empty body env = do
    req ← require body 400 "invalid JSON"
    check (not (str_eq req.name "")) 400 "name is required"
    commit (create_org codec env.fails (new_org empty env req)) 500 "internal error"
    respond (new_org empty env req)

  unfoldable pub get : Option Uuid → Bool → Handler (List (OrgUnit J)) (OrgUnit M)
  unfolding get_org
  get id fault = do
    i ← require id 400 "invalid org id"
    o ← fetch (get_org codec fault i) 404 "not found"
    respond o

  unfoldable pub list : Bool → Handler (List (OrgUnit J)) (List (OrgUnit M))
  unfolding list_orgs
  list fault = do orgs ← fetch (list_orgs codec fault) 500 "internal error"; respond orgs

  unfoldable pub update_policy :
      Option Uuid → Option W → OrgEnv → Handler (List (OrgUnit J)) (Unit {0})
  unfolding update_org_policy
  update_policy id body env = do
    i ← require id 400 "invalid org id"
    policy ← require body 400 "invalid JSON"
    commit (update_org_policy codec env.fails env.now i policy) 500 "internal error"
    respond tt
