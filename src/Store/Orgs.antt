-- ===== src/Store/Orgs.antt =====
-- control-plane/internal/store/postgres/orgs.go over the rows of the table `orgs` of migrations/001_create_orgs.sql. The column `policy`
-- holds a JSON document.
use grid_token_util.Prelude.{
  Option, ◌==◌, String, Bool, not, none, some, List, [], ◌∷◌, ◌++◌, str_eq, ltb, update, exists,
  find,
}
use grid_token_util.Prelude.Order.{sort}
use grid_token_util.Prelude.Results.{
  Result, ok, err, not_found, query_failed, conflict, ◌>>◌, refuse_if,
}
use grid_token_util.Domain.{Uuid, Time}

pub record OrgUnit (P : Type 0) : Type 0 where
  pub id : Uuid
  pub name : String
  pub plan_tier : String
  pub policy : P
  pub created_at : Time
  pub updated_at : Time

-- The policies by `encoding/json`: a document `J`, the map `M` of `OrgUnit.Policy`, and the struct `W`
-- that is `OrgPolicy`. `none` is an error. What is read need not be what was written: a number comes back as a `float64`.
pub record PolicyCodec (J M W : Type 0) : Type 0 where
  pub marshal_map : M → Option J
  pub marshal_policy : W → Option J
  pub unmarshal : J → Option M

abbrev pub with_document : {A B : Type 0} → B → OrgUnit A → OrgUnit B
with_document policy o = record {
  id = o.id;
  name = o.name;
  plan_tier = o.plan_tier;
  policy = policy;
  created_at = o.created_at;
  updated_at = o.updated_at;
}

abbrev pub is_org : {P : Type 0} → Uuid → OrgUnit P → Bool
is_org id o = o.id == id

abbrev pub is_named : {P : Type 0} → String → OrgUnit P → Bool
is_named name o = str_eq o.name name

abbrev pub with_policy : {P : Type 0} → Time → P → OrgUnit P → OrgUnit P
with_policy now policy o = record o { policy = policy; updated_at = now }

-- `ORDER BY created_at ASC`.
abbrev pub older : {P : Type 0} → OrgUnit P → OrgUnit P → Bool
older a b = ltb a.created_at b.created_at

module _ {J M W : Type 0} (codec : PolicyCodec J M W) where
  unfoldable pub scan_org : OrgUnit J → Option (OrgUnit M)
  scan_org row = elim (codec.unmarshal row.policy) [
    | none ↦ none
    | some policy ↦ some (with_document policy row)
  ]

  -- The keys of the table are the identifier and the name.
  unfoldable pub create_org : Bool → OrgUnit M → List (OrgUnit J) → Result (List (OrgUnit J))
  create_org fault org orgs = elim (codec.marshal_map org.policy) [
    | none ↦ err query_failed
    | some doc ↦ do
      refuse_if fault query_failed
      refuse_if (exists (is_org org.id) orgs) conflict
      refuse_if (exists (is_named org.name) orgs) conflict
      ok (orgs ++ with_document doc org ∷ [])
  ]

  abbrev pub scanned : Option (OrgUnit M) → Result (OrgUnit M)
  scanned none = err query_failed
  scanned (some o) = ok o

  unfoldable pub get_org : Bool → Uuid → List (OrgUnit J) → Result (OrgUnit M)
  unfolding scan_org
  get_org fault id orgs = do
    refuse_if fault query_failed
    elim (find (is_org id) orgs) [ none ↦ err not_found | some row ↦ scanned (scan_org row) ]

  -- The loop over the rows ends at the first that is not read.
  unfoldable pub scan_orgs : List (OrgUnit J) → Result (List (OrgUnit M))
  unfolding scan_org
  scan_orgs [] = ok []
  scan_orgs (row ∷ rows) =
      let rest = scan_orgs rows in
      elim (scan_org row) [
        | none ↦ err query_failed
        | some o ↦ elim rest [ err e ↦ err e | ok os ↦ ok (o ∷ os) ]
      ]

  unfoldable pub list_orgs : Bool → List (OrgUnit J) → Result (List (OrgUnit M))
  unfolding scan_orgs
  list_orgs fault orgs = do refuse_if fault query_failed; scan_orgs (sort older orgs)

  unfoldable pub update_org_policy :
      Bool → Time → Uuid → W → List (OrgUnit J) → Result (List (OrgUnit J))
  update_org_policy fault now id policy orgs = elim (codec.marshal_policy policy) [
    | none ↦ err query_failed
    | some doc ↦ do
      refuse_if fault query_failed
      refuse_if (not (exists (is_org id) orgs)) not_found
      ok (update (is_org id) (with_policy now doc) orgs)
  ]
