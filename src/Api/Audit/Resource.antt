-- ===== src/Api/Audit/Resource.antt =====
-- control-plane/internal/api/middleware/audit.go: what an event says that it is about.
use grid_token_util.Prelude.{◌≡◌, refl, String, true, Option, some, List, [], ◌∷◌, arith}
use grid_token_util.Api.Audit.{is_resource, or_next, resource_from, extract_resource}

-- Below /api/v1 the first segment that names one of the five resources is the type, and the identifier is the parameter of the
-- route where it has one, and otherwise the next segment unless it is missing, empty or the name of an operation.
pub extract_resource-first :
    (param : Option String) (kind : String) (rest : List String)
    → is_resource kind ≡ true
    → extract_resource param ("api" ∷ "v1" ∷ kind ∷ rest) ≡ (kind, or_next param rest)
unfolding extract_resource resource_from
extract_resource-first param kind rest h = rw h refl

-- A route's parameter is never replaced by a segment of the path.
pub extract_resource-param :
    (v : String) (path : List String) → (extract_resource (some v) path).1 ≡ some v
unfolding extract_resource resource_from
extract_resource-param v path = from v "" path
  where
    from : (v last : String) (path : List String) → (resource_from (some v) last path).1 ≡ some v
    from v last [] = refl
    from v last (seg ∷ rest) = ground (arith, from v seg rest)
