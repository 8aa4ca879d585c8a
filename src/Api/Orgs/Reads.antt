-- ===== src/Api/Orgs/Reads.antt =====
-- What is read of an organisation after the handlers of control-plane/internal/api/handlers/orgs.go that write.
use grid_token_util.Prelude.{
  ◌≡◌, ◌≢◌, refl, sym, ap, subst, Option-cases, ◌∙◌, true, false, Option, none, some, inl, inr,
  List, update, find, find-update, find-update_other, exists-find, arith,
}
use grid_token_util.Prelude.Replies.{Reply, answer, refused}
use grid_token_util.Domain.{Uuid}
use grid_token_util.Store.Orgs.{PolicyCodec, with_document, scan_org, OrgUnit, is_org, with_policy}
use grid_token_util.Api.Orgs.{OrgEnv, get, update_policy}
use grid_token_util.Api.Orgs.Directory.{update_cases}

module _ {J M W : Type 0} (codec : PolicyCodec J M W) where
  -- What `Get` answers while the database does.
  abbrev pub reads : Uuid → List (OrgUnit J) → Reply (OrgUnit M)
  reads i orgs = (get codec (some i) false orgs).1

  -- A row whose document is not read is answered as a missing one.
  abbrev pub answered : Option (OrgUnit M) → Reply (OrgUnit M)
  answered none = refused 404 "not found"
  answered (some o) = answer o

  abbrev found : Option (OrgUnit J) → Reply (OrgUnit M)
  found none = refused 404 "not found"
  found (some row) = answered (scan_org codec row)

  reads-find : (i : Uuid) (orgs : List (OrgUnit J)) → reads i orgs ≡ found (find (is_org i) orgs)
  unfolding get
  reads-find i orgs = elim (Option-cases (find (is_org i) orgs)) [
    | inl h ↦ ground (arith, h)
    | inr (o, h) ↦ elim (Option-cases (scan_org codec o)) [
      | inl e ↦ ground (arith, h, e)
      | inr (p, e) ↦ ground (arith, h, e)
    ]
  ]

  -- What is read depends on what the search finds.
  reads-found :
      (i : Uuid) (orgs : List (OrgUnit J)) {r : Option (OrgUnit J)}
      → find (is_org i) orgs ≡ r
      → reads i orgs ≡ found r
  reads-found i orgs h = reads-find i orgs ∙ ap found h

  reads-same :
      (i : Uuid) (orgs orgs' : List (OrgUnit J))
      → find (is_org i) orgs' ≡ find (is_org i) orgs
      → reads i orgs' ≡ reads i orgs
  reads-same i orgs orgs' h = reads-found i orgs' h ∙ sym (reads-find i orgs)

  is_org_other : (j : Uuid) (o : OrgUnit J) → o.id ≢ j → is_org j o ≡ false
  is_org_other j o h = ground arith

  moved : (i j : Uuid) (x : OrgUnit J) → is_org i x ≡ true → i ≢ j → x.id ≢ j
  moved i j x k n = ground arith

  -- A row whose column holds a document, as `Get` reads it.
  abbrev pub with_read : OrgUnit J → Option M → Reply (OrgUnit M)
  with_read row none = refused 404 "not found"
  with_read row (some policy) = answer (with_document policy row)

  answered-scan :
      (row : OrgUnit J) → answered (scan_org codec row) ≡ with_read row (codec.unmarshal row.policy)
  unfolding scan_org
  answered-scan row = elim (Option-cases (codec.unmarshal row.policy)) [
    | inl e ↦ ground (arith, e)
    | inr (m, e) ↦ ground (arith, e)
  ]

  -- An update of a policy that is answered is of an organisation that is stored, and its policy has a JSON document. The organisation
  -- is then read with what `json.Unmarshal` makes of that document, and as a missing one where it makes nothing of it; nothing else
  -- of it changes but the time of its update, and every other organisation is read as before.
  pub update_policy-get :
      (i : Uuid) (policy : W) (env : OrgEnv) (orgs : List (OrgUnit J))
      → (update_policy codec (some i) (some policy) env orgs).1 ≡ answer tt
      → ((row : OrgUnit J) × (doc : J) × (find (is_org i) orgs ≡ some row)
          × (codec.marshal_policy policy ≡ some doc)
          × (reads i (update_policy codec (some i) (some policy) env orgs).0
              ≡ with_read (with_policy env.now doc row) (codec.unmarshal doc)))
        × ((j : Uuid)
            → i ≢ j
            → reads j (update_policy codec (some i) (some policy) env orgs).0 ≡ reads j orgs)
  update_policy-get i policy env orgs h = elim (update_cases codec i policy env orgs) [
    | inl e ↦ cc
    | inr (doc, (m, e, there)) ↦
        let (row, at_i) = exists-find (is_org i) orgs there in
        subst
          (λ (r : List (OrgUnit J) × Reply (Unit {0})).
            ((row : OrgUnit J) × (doc : J) × (find (is_org i) orgs ≡ some row)
              × (codec.marshal_policy policy ≡ some doc)
              × (reads i r.0 ≡ with_read (with_policy env.now doc row) (codec.unmarshal doc)))
            × ((j : Uuid) → i ≢ j → reads j r.0 ≡ reads j orgs))
          (sym e)
          (
            (
              row,
              doc,
              at_i,
              m,
              reads-found i (update (is_org i) (with_policy env.now doc) orgs)
                    (find-update (is_org i) (with_policy env.now doc) orgs (λ x k. k) at_i)
                  ∙ answered-scan (with_policy env.now doc row),
            ),
            λ j n. reads-same j orgs (update (is_org i) (with_policy env.now doc) orgs) (
                find-update_other (is_org i) (is_org j) (with_policy env.now doc) orgs (λ x k. refl)
                  (λ x k. is_org_other j x (moved i j x k n))),
          )
  ]
