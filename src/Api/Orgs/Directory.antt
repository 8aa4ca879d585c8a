-- ===== src/Api/Orgs/Directory.antt =====
-- The table of organisations under the handlers of control-plane/internal/api/handlers/orgs.go.
use grid_token_util.Prelude.{
  ℕ, ◌≡◌, ◌≢◌, refl, sym, ap, subst, String, true, false, not, Option, none, some, inl, inr, ◌⊎◌,
  List, [], ◌∷◌, ◌++◌, All, update, exists, Bool-cases, Option-cases, append-All, update-All,
  exists-All, str_eq, str_eq_iff, arith,
}
use grid_token_util.Prelude.Replies.{Reply, answer, refused}
use grid_token_util.Domain.{Uuid, Time}
use grid_token_util.Store.Orgs.{OrgUnit, PolicyCodec, with_document, is_org, is_named, with_policy}
use grid_token_util.Api.Orgs.{CreateOrgRequest, OrgEnv, create, update_policy, new_org}

-- What a client can ask of the handlers that write.
pub data Request (W : Type 0) : Type 0 where
  creates : Option CreateOrgRequest → OrgEnv → Request W
  updates : Option Uuid → Option W → OrgEnv → Request W

abbrev Differs : {P : Type 0} → OrgUnit P → OrgUnit P → Type 0
Differs x y = (y.id ≢ x.id) × (y.name ≢ x.name)

module _ {P : Type 0} where
  -- No two organisations have an identifier or a name in common.
  abbrev pub IsDirectory : List (OrgUnit P) → Type 0
  IsDirectory [] = Unit
  IsDirectory (x ∷ xs) = All (Differs x) xs × IsDirectory xs

  no_id : (i : Uuid) (o : OrgUnit P) → is_org i o ≡ false → o.id ≢ i
  no_id i o h = ground arith

  no_name : (s : String) (o : OrgUnit P) → is_named s o ≡ false → o.name ≢ s
  no_name s o h e = cc (rw ((str_eq_iff o.name s).1 e) at h)

  add-IsDirectory :
      (xs : List (OrgUnit P)) (o : OrgUnit P)
      → IsDirectory xs
      → All (λ x. is_org o.id x ≡ false) xs
      → All (λ x. is_named o.name x ≡ false) xs
      → IsDirectory (xs ++ o ∷ [])
  add-IsDirectory [] o d ids names = (tt, tt)
  add-IsDirectory (x ∷ xs) o d ids names = (
    append-All (Differs x) xs (o ∷ []) d.0
        ((λ e. no_id o.id x ids.0 (sym e), λ e. no_name o.name x names.0 (sym e)), tt),
    add-IsDirectory xs o d.1 ids.1 names.1,
  )

  set-IsDirectory :
      (i : Uuid) (now : Time) (policy : P) (xs : List (OrgUnit P))
      → IsDirectory xs
      → IsDirectory (update (is_org i) (with_policy now policy) xs)
  set-IsDirectory i now policy [] d = tt
  set-IsDirectory i now policy (x ∷ xs) d = elim (Bool-cases (is_org i x)) [
    | inl h ↦ rw h (others, set-IsDirectory i now policy xs d.1)
    | inr h ↦ rw h (others, set-IsDirectory i now policy xs d.1)
  ]
    where
      others : All (Differs x) (update (is_org i) (with_policy now policy) xs)
      others = update-All (is_org i) (with_policy now policy) xs (λ y p e. p) (λ y p e. p) d.0

module _ {J M W : Type 0} (codec : PolicyCodec J M W) where
  unfoldable pub handle : M → Request W → List (OrgUnit J) → List (OrgUnit J)
  handle empty (creates body env) orgs = (create codec empty body env orgs).0
  handle empty (updates id body env) orgs = (update_policy codec id body env orgs).0

  unfoldable pub handle_all : M → List (Request W) → List (OrgUnit J) → List (OrgUnit J)
  handle_all empty [] orgs = orgs
  handle_all empty (r ∷ rs) orgs = handle_all empty rs (handle empty r orgs)

  -- A creation is refused and changes nothing, or adds a row whose keys are new.
  abbrev pub Created :
      M → OrgUnit M → OrgEnv → List (OrgUnit J) → List (OrgUnit J) × Reply (OrgUnit M) → J → Type 0
  Created empty o env orgs r doc =
      (codec.marshal_map empty ≡ some doc)
      × (r ≡ (orgs ++ with_document doc o ∷ [], answer o))
      × (exists (is_org o.id) orgs ≡ false)
      × (exists (is_named o.name) orgs ≡ false)

  pub create_cases :
      (empty : M) (body : Option CreateOrgRequest) (env : OrgEnv) (orgs : List (OrgUnit J))
      → ((code : ℕ) × (msg : String) × (create codec empty body env orgs
            ≡ (orgs, refused code msg)))
        ⊎ ((o : OrgUnit M) × (doc : J) × Created empty o env orgs
              (create codec empty body env orgs)
              doc)
  unfolding create
  create_cases empty none env orgs = inl (400, "invalid JSON", refl)
  create_cases empty (some req) env orgs = elim (Bool-cases (not (str_eq req.name ""))) [
    | inr h ↦ inl (400, "name is required", rw h refl)
    | inl h ↦ elim (Option-cases (codec.marshal_map empty)) [
      | inl m ↦ inl (500, "internal error", ground (arith, h, m))
      | inr (doc, m) ↦ elim (Bool-cases env.fails) [
        | inl f ↦ inl (500, "internal error", ground (arith, h, m, f))
        | inr f ↦ elim (Bool-cases (exists (is_org env.fresh_id) orgs)) [
          | inl e ↦ inl (500, "internal error", ground (arith, h, m, f, e))
          | inr e ↦ elim (Bool-cases (exists (is_named req.name) orgs)) [
            | inl g ↦ inl (500, "internal error", ground (arith, h, m, f, e, g))
            | inr g ↦ inr (new_org empty env req, doc, (m, ground (arith, h, m, f, e, g), e, g))
          ]
        ]
      ]
    ]
  ]

  abbrev pub Updated :
      Uuid → W → Time → List (OrgUnit J) → List (OrgUnit J) × Reply (Unit {0}) → J → Type 0
  Updated i policy now orgs r doc =
      (codec.marshal_policy policy ≡ some doc)
      × (r ≡ (update (is_org i) (with_policy now doc) orgs, answer tt))
      × (exists (is_org i) orgs ≡ true)

  pub update_cases :
      (i : Uuid) (policy : W) (env : OrgEnv) (orgs : List (OrgUnit J))
      → (update_policy codec (some i) (some policy) env orgs ≡ (orgs, refused 500 "internal error"))
        ⊎ ((doc : J) × Updated i policy env.now orgs
              (update_policy codec (some i) (some policy) env orgs)
              doc)
  unfolding update_policy
  update_cases i policy env orgs = elim (Option-cases (codec.marshal_policy policy)) [
    | inl m ↦ inl (ground (arith, m))
    | inr (doc, m) ↦ elim (Bool-cases env.fails) [
      | inl f ↦ inl (ground (arith, m, f))
      | inr f ↦ elim (Bool-cases (exists (is_org i) orgs)) [
        | inl e ↦ inr (doc, (m, ground (arith, m, f, e), e))
        | inr e ↦ inl (ground (arith, m, f, e))
      ]
    ]
  ]

  keep :
      {A : Type 0} {r : List (OrgUnit J) × A} {orgs : List (OrgUnit J)} {a : A}
      → r ≡ (orgs, a)
      → IsDirectory orgs
      → IsDirectory r.0
  keep h d = subst IsDirectory (sym (ap (λ s. s.0) h)) d

  handle-IsDirectory :
      (empty : M) (r : Request W) (orgs : List (OrgUnit J))
      → IsDirectory orgs
      → IsDirectory (handle empty r orgs)
  unfolding handle update_policy
  handle-IsDirectory empty (creates body env) orgs d = elim (create_cases empty body env orgs) [
    | inl (code, msg, h) ↦ keep h d
    | inr (o, doc, h) ↦ keep h.1 (
        add-IsDirectory orgs (with_document doc o) d (exists-All (is_org o.id) orgs h.2)
          (exists-All (is_named o.name) orgs h.3))
  ]
  handle-IsDirectory empty (updates none body env) orgs d = d
  handle-IsDirectory empty (updates (some i) none env) orgs d = d
  handle-IsDirectory empty (updates (some i) (some policy) env) orgs d =
      elim (update_cases i policy env orgs) [
        | inl h ↦ keep h d
        | inr (doc, h) ↦ keep h.1 (set-IsDirectory i env.now doc orgs d)
      ]

  -- Through any creations and updates of policies, whatever the database answers, no two organisations come to have an identifier or
  -- a name in common.
  pub handle_all-IsDirectory :
      (empty : M) (requests : List (Request W)) (orgs : List (OrgUnit J))
      → IsDirectory orgs
      → IsDirectory (handle_all empty requests orgs)
  unfolding handle_all
  handle_all-IsDirectory empty [] orgs d = d
  handle_all-IsDirectory empty (r ∷ rs) orgs d =
      handle_all-IsDirectory empty rs (handle empty r orgs) (handle-IsDirectory empty r orgs d)
