-- ===== src/Dashboard/Projector.antt =====
-- control-plane/internal/dashboard/projector.go: from the Redis stream of an organisation to the hub. Redis and
-- `encoding/json` are not part of the repository: what they answer is an argument.
use grid_token_util.Prelude.{
  ◌≡◌, ◌<◌, ◌⊎◌, String, Bool, Option, none, some, List, [], ◌∷◌, if◌then◌else◌, str_eq, length,
}
use grid_token_util.Domain.{Uuid}
use grid_token_util.Dashboard.Hub.{
  nothing, object, text, Event, Hub, Outcome, returned, panicked, Gap, broadcast,
}
use grid_token_util.Dashboard.Hub.Invariant.{Inv}

-- A message of the stream: its values "type" and "data", `none` where one is absent or no string.
pub record Message : Type 0 where
  pub id : String
  pub kind : Option String
  pub body : Option String

abbrev pub or_blank : Option String → String
or_blank none = ""
or_blank (some s) = s

-- `is_object`: `json.Unmarshal` into a map succeeds.
unfoldable pub event_of : (String → Bool) → Message → Event
event_of is_object m =
    let body = or_blank m.body in
    record {
      id = m.id;
      kind = or_blank m.kind;
      payload =
          if str_eq body "" then nothing else if is_object body then object body else text body;
    }

-- `gaps`: what other goroutines do with the hub during the broadcast.
unfoldable pub process_message : (String → Bool) → Uuid → Message → List Gap → Hub → Outcome Hub
process_message is_object org m gaps h = broadcast org (event_of is_object m) gaps h

-- The messages of one read with their gaps, and the identifiers that are acknowledged: each after its broadcast.
unfoldable pub project :
    (String → Bool) → Uuid → List (Message × List Gap) → Hub → Outcome Hub × List String
project is_object org [] h = (returned h, [])
project is_object org ((m, gaps) ∷ ms) h = elim (process_message is_object org m gaps h) [
  | panicked ↦ (panicked, [])
  | returned k ↦ let rest = project is_object org ms k in (rest.0, m.id ∷ rest.1)
]

-- One turn of `Run`: `none` is a read that fails or finds nothing.
unfoldable pub turn :
    (String → Bool) → Uuid → Option (List (Message × List Gap)) → Hub → Outcome Hub × List String
unfolding project
turn is_object org none h = (returned h, [])
turn is_object org (some ms) h = project is_object org ms h

-- The values that `PublishEvent` adds to the stream; `marshal` is `json.Marshal` and `xadd` the command.
unfoldable pub publish_event :
    {A R : Type 0} → (A → Option String) → (String → String → R) → R → String → A → R
publish_event marshal xadd failed kind a = elim (marshal a) [
  | none ↦ failed
  | some body ↦ xadd kind body
]

abbrev pub ids_of : List (Message × List Gap) → List String
ids_of [] = []
ids_of ((m, gaps) ∷ ms) = m.id ∷ ids_of ms

-- The identifiers of the first messages.
abbrev pub IsStart : List String → List String → Type 0
IsStart [] ys = Unit
IsStart (x ∷ xs) [] = ⊥
IsStart (x ∷ xs) (y ∷ ys) = (x ≡ y) × IsStart xs ys

module _ (is_object : String → Bool) (org : Uuid) where
  -- How a turn ends.
  abbrev pub Ends : List (Message × List Gap) → Outcome Hub × List String → Type 0
  Ends ms r =
      IsStart r.1 (ids_of ms)
      × (((k : Hub) × (r.0 ≡ returned k) × Inv k × (r.1 ≡ ids_of ms))
          ⊎ ((r.0 ≡ panicked) × (length r.1 < length ms)))
