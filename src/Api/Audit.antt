-- ===== src/Api/Audit.antt =====
-- control-plane/internal/api/middleware/audit.go, with the audit log of control-plane/internal/store/postgres/audit.go and the
-- handler of control-plane/internal/api/handlers/audit.go. The fields `details` and `ip_address` are left out but for the status,
-- and an identifier that the program formats as text is kept as it is.
pub mod Resource
pub mod Log
pub mod Refusal
use grid_token_util.Prelude.{
  ℕ, ◌*◌, ◌-◌, ◌==◌, String, Bool, true, false, not, ◌&&◌, ◌||◌, Option, none, some, List, [], ◌∷◌,
  if◌then◌else◌, str_eq, leb, ltb, take, drop, select,
}
use grid_token_util.Prelude.Int.{ℤ, pos, pos_part, leb_ℤ, ltb_ℤ}
use grid_token_util.Prelude.Order.{sort}
use grid_token_util.Prelude.Results.{Result, ok, err, StoreError, query_failed}
use grid_token_util.Prelude.Replies.{Reply, answer, refused}
use grid_token_util.Domain.{Uuid, Time}
use grid_token_util.Api.Context.{Context}

pub data Verb : Type 0 where
  get post patch put delete head options : Verb

-- `mutatingMethods`.
unfoldable pub is_mutating : Verb → Bool
is_mutating post = true
is_mutating patch = true
is_mutating put = true
is_mutating delete = true
is_mutating _ = false

-- The nil identifier stands in for an organisation that is absent from the context.
abbrev pub nil_uuid : Uuid
nil_uuid = 0

-- Who acted: a key by its identifier, or by its prefix where it is not known.
pub data Actor : Type 0 where
  system : Actor
  api_key : Uuid → Actor
  key_prefix : String → Actor

-- `Action`: "auth_failed", or the method and the path.
pub data AuditAction : Type 0 where
  auth_failed : AuditAction
  request : Verb → List String → AuditAction

pub record AuditEvent : Type 0 where
  pub id : Uuid
  pub org_unit_id : Uuid
  pub actor : Actor
  pub action : AuditAction
  pub resource_type : String
  pub resource_id : Option String
  pub status : ℕ
  pub occurred_at : Time

abbrev pub is_resource : String → Bool
is_resource seg =
    str_eq seg "tasks"
    || str_eq seg "workers"
    || str_eq seg "api-keys"
    || str_eq seg "orgs"
    || str_eq seg "outputs"

abbrev pub is_id : String → Bool
is_id seg =
    not (str_eq seg "" || str_eq seg "register" || str_eq seg "heartbeat" || str_eq seg "rotate")

abbrev pub or_next : Option String → List String → Option String
or_next (some v) rest = some v
or_next none [] = none
or_next none (v ∷ rest) = if is_id v then some v else none

-- `last` is the last segment so far, `param` the route's parameter "id". The result is the type and the identifier.
unfoldable pub resource_from : Option String → String → List String → String × Option String
resource_from param last [] = (last, param)
resource_from param last (seg ∷ rest) =
    let further = resource_from param seg rest in
    if is_resource seg then (seg, or_next param rest) else further

-- `strings.Split` gives one empty segment for an empty path.
unfoldable pub extract_resource : Option String → List String → String × Option String
unfolding resource_from
extract_resource param path = resource_from param "" path

unfoldable pub event_of :
    Uuid → Time → Context → Verb → List String → Option String → ℕ → AuditEvent
unfolding extract_resource
event_of id now c verb path param status = record {
  id = id;
  org_unit_id = elim c.org_unit_id [ none ↦ nil_uuid | some org ↦ org ];
  actor = elim c.api_key_id [ none ↦ system | some key ↦ api_key key ];
  action = request verb path;
  resource_type = (extract_resource param path).0;
  resource_id = (extract_resource param path).1;
  status = status;
  occurred_at = now;
}

-- The event of a request that has been answered with the status; `none` where its method does not change anything.
unfoldable pub audit :
    Uuid → Time → Context → Verb → List String → Option String → ℕ → Option AuditEvent
unfolding is_mutating event_of
audit id now c verb path param status =
    if is_mutating verb then some (event_of id now c verb path param status) else none

-- `writeAuthAuditEvent`, with the status of the answer: the organisation is the nil one where the key is not known.
unfoldable pub auth_failure : Uuid → Time → Actor → Uuid → AuditEvent
auth_failure id now actor org = record {
  id = id;
  org_unit_id = org;
  actor = actor;
  action = auth_failed;
  resource_type = "api_key";
  resource_id = none;
  status = 401;
  occurred_at = now;
}

-- `WriteAuditEvent`: the log only grows.
unfoldable pub write_audit_event : Bool → AuditEvent → List AuditEvent → Result (List AuditEvent)
write_audit_event fault e rows = if fault then err query_failed else ok (e ∷ rows)

-- `ORDER BY occurred_at DESC`.
abbrev pub newer : AuditEvent → AuditEvent → Bool
newer a b = ltb b.occurred_at a.occurred_at

abbrev pub in_range : Uuid → Time → Time → AuditEvent → Bool
in_range org from to e = e.org_unit_id == org && leb from e.occurred_at && leb e.occurred_at to

unfoldable pub query_audit_log :
    Bool → Uuid → Time → Time → ℕ → ℕ → List AuditEvent → Result (List AuditEvent)
query_audit_log fault org from to limit offset rows =
    if fault
    then err query_failed
    else ok (take limit (drop offset (sort newer (select (in_range org from to) rows))))

-- The parameters of the query, `none` where one is absent or does not parse.
pub record LogQuery : Type 0 where
  pub from : Option Time
  pub to : Option Time
  pub limit : Option ℤ
  pub offset : Option ℤ

-- 24 hours, in microseconds.
abbrev pub one_day : Time
one_day = 24 * 3600 * 1000000

unfoldable pub limit_of : Option ℤ → ℕ
limit_of none = 100
limit_of (some v) = if ltb_ℤ (pos 0) v && leb_ℤ v (pos 1000) then pos_part v else 100

unfoldable pub offset_of : Option ℤ → ℕ
offset_of none = 0
offset_of (some v) = if leb_ℤ (pos 0) v then pos_part v else 0

abbrev pub or_time : Option Time → Time → Time
or_time none t = t
or_time (some u) t = u

-- `AuditHandler.List`.
unfoldable pub list_events :
    Bool → Time → Context → LogQuery → List AuditEvent → Reply (List AuditEvent)
unfolding query_audit_log limit_of offset_of
list_events fault now c q rows = elim c.org_unit_id [
  | none ↦ refused 401 "unauthenticated"
  | some org ↦
      let page =
        query_audit_log fault org (or_time q.from (now - one_day)) (or_time q.to now)
          (limit_of q.limit) (offset_of q.offset) rows in
      elim page [ err e ↦ refused 500 "internal error" | ok events ↦ answer events ]
]
