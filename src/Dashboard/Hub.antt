-- ===== src/Dashboard/Hub.antt =====
-- control-plane/internal/dashboard/hub.go: the clients of the live view and the events sent to them. Every channel that was
-- ever made is kept, so that a client is still there after it has left the map. What `ServeSSE` has written for a client is
-- its `written`. That Go may also stop a program that reads and writes a map at once is left out.
pub mod Sends
pub mod Invariant
pub mod Delivery
pub mod Order
pub mod Races
use grid_token_util.Prelude.{
  ℕ, zero, suc, ◌+◌, ◌==◌, String, Bool, true, false, not, ◌&&◌, ◌||◌, Option, none, some, List, [],
  ◌∷◌, ◌++◌, if◌then◌else◌, leb, ltb, length, find, exists, update, select,
}
use grid_token_util.Domain.{Uuid}

-- `Data`: nil, a JSON object, or a text that is none.
pub data Payload : Type 0 where
  nothing : Payload
  object text : String → Payload

pub record Event : Type 0 where
  pub id : String
  pub kind : String
  pub payload : Payload

-- `is_registered`: the client is in the map; `is_open`: its channel is not closed.
pub record Client : Type 0 where
  pub id : Uuid
  pub org : Uuid
  pub channel : List Event
  pub is_open : Bool
  pub is_registered : Bool
  pub written : List Event

pub record Hub : Type 0 where
  pub clients : List Client
  pub max_clients : ℕ

-- A panic of the program ends it.
pub data Outcome (A : Type 0) : Type 0 where
  returned : A → Outcome A
  panicked : Outcome A

abbrev pub new_hub : ℕ → Hub
new_hub n = record { clients = []; max_clients = n }

-- The sizes of the inner maps.
unfoldable pub total : List Client → ℕ
total [] = 0
total (c ∷ cs) = let rest = total cs in if c.is_registered then suc rest else rest

abbrev pub capacity : ℕ
capacity = 32

abbrev new_client : Uuid → Uuid → Client
new_client id org = record {
  id = id;
  org = org;
  channel = [];
  is_open = true;
  is_registered = true;
  written = [];
}

-- `uuid.New()` is an argument; `none` is the nil of a hub that is full.
unfoldable pub register : Uuid → Uuid → Hub → Option Hub
unfolding total
register id org h =
    if leb h.max_clients (total h.clients)
    then none
    else some (record h { clients = new_client id org ∷ h.clients })

abbrev pub has_id : Uuid → Client → Bool
has_id id c = c.id == id

-- The start of `ServeSSE`: the event "connected" is written first. With a status the request is refused; `can_flush` is the test
-- for `http.Flusher`.
unfoldable pub serve_sse : Bool → Uuid → Uuid → Event → Hub → Hub × Option ℕ
unfolding register
serve_sse can_flush id org connected h =
    if not can_flush then (h, some 500) else elim (register id org h) [
      | none ↦ (h, some 503)
      | some k ↦
          let greet : Client → Client = λ c. record c { written = c.written ++ (connected ∷ []) } in
          (record k { clients = update (has_id id) greet k.clients }, none)
    ]

-- The client leaves the map, and its channel is closed: a channel that is closed already panics.
unfoldable pub unregister : Uuid → Hub → Outcome Hub
unregister id h =
    if exists (λ c. has_id id c && not c.is_open) h.clients
    then panicked
    else returned (record h {
      clients =
          update (has_id id) (λ c. record c { is_open = false; is_registered = false }) h.clients;
    })

-- A send in a `select` with a default: a full channel drops the event, and a closed one panics.
unfoldable pub send : Event → Client → Outcome Client
send e c =
    if not c.is_open
    then panicked
    else if ltb (length c.channel) capacity
    then returned (record c { channel = c.channel ++ (e ∷ []) })
    else returned c

abbrev pub send_if : Bool → Event → Client → Outcome Client
send_if b e c = if b then send e c else returned c

abbrev pub both : Outcome Client → Outcome (List Client) → Outcome (List Client)
both panicked rest = panicked
both (returned d) panicked = panicked
both (returned d) (returned ds) = returned (d ∷ ds)

-- A loop over the clients of the map that pass the test.
unfoldable pub send_where : (Client → Bool) → Event → List Client → Outcome (List Client)
send_where p e [] = returned []
send_where p e (c ∷ cs) = both (send_if (p c) e c) (send_where p e cs)

abbrev pub of_org : Uuid → Client → Bool
of_org org c = c.is_registered && c.org == org

abbrev pub with_clients : Hub → Outcome (List Client) → Outcome Hub
with_clients h panicked = panicked
with_clients h (returned cs) = returned (record h { clients = cs })

-- One send of a broadcast, to a client that its loop has read from the map.
unfoldable pub send_later : Uuid → Event → Hub → Outcome Hub
send_later id e h = with_clients h (send_where (has_id id) e h.clients)

-- One turn of the loop of `ServeSSE`: the first event of the channel is written.
unfoldable pub write_next : Client → Client
write_next c = elim c.channel [
  | [] ↦ c
  | e ∷ rest ↦ record c { channel = rest; written = c.written ++ (e ∷ []) }
]

unfoldable pub serve_next : Uuid → Hub → Hub
serve_next id h = record h { clients = update (has_id id) write_next h.clients }

-- What happens to a hub, step by step: no goroutine holds the lock between a send of a broadcast and the next, so that a broadcast is
-- not one step but one for each of its sends.
pub data Call : Type 0 where
  joins : Bool → Uuid → Uuid → Event → Call
  leaves : Uuid → Call
  sends_to : Uuid → Event → Call
  serves : Uuid → Call

unfoldable pub step : Call → Hub → Outcome Hub
step (joins can_flush id org connected) h = returned (serve_sse can_flush id org connected h).0
step (leaves id) h = unregister id h
step (sends_to id e) h = send_later id e h
step (serves id) h = returned (serve_next id h)

unfoldable pub run : List Call → Hub → Outcome Hub
run [] h = returned h
run (call ∷ calls) h = elim (step call h) [ panicked ↦ panicked | returned k ↦ run calls k ]

abbrev pub and_then : Outcome Hub → (Hub → Outcome Hub) → Outcome Hub
and_then panicked f = panicked
and_then (returned h) f = f h

-- What other goroutines do in one turn of a broadcast: before its loop looks at the next client, and between that and the send.
pub record Gap : Type 0 where
  pub before : List Call
  pub between : List Call

abbrev pub first_gap : List Gap → Gap
first_gap [] = record { before = []; between = [] }
first_gap (gap ∷ gaps) = gap

abbrev pub other_gaps : List Gap → List Gap
other_gaps [] = []
other_gaps (gap ∷ gaps) = gaps

-- A client that has left the map is not reached by the loop any more; one that leaves after the loop has reached it is sent to.
unfoldable pub broadcast_from : Event → List Uuid → List Gap → Hub → Outcome Hub
unfolding run
broadcast_from e [] gaps h = returned h
broadcast_from e (id ∷ ids) gaps h = and_then (run (first_gap gaps).before h) (λ k.
    if exists (λ c. has_id id c && c.is_registered) k.clients
    then and_then (run (first_gap gaps).between k)
        (λ m. and_then (send_later id e m) (λ n. broadcast_from e ids (other_gaps gaps) n))
    else broadcast_from e ids (other_gaps gaps) k)

unfoldable pub targets : (Client → Bool) → List Client → List Uuid
targets p [] = []
targets p (c ∷ cs) = let rest = targets p cs in if p c then c.id ∷ rest else rest

-- `Broadcast`: the clients are read under the lock and the loop runs without it. A client that joins during the loop is not reached.
unfoldable pub broadcast : Uuid → Event → List Gap → Hub → Outcome Hub
unfolding broadcast_from targets
broadcast org e gaps h = broadcast_from e (targets (of_org org) h.clients) gaps h

abbrev is_lock_free : Call → Bool
is_lock_free (joins _ _ _ _) = false
is_lock_free (leaves _) = false
is_lock_free _ = true

abbrev locked : List Gap → List Gap
locked [] = []
locked (gap ∷ gaps) =
    record { before = select is_lock_free gap.before; between = select is_lock_free gap.between }
    ∷ locked gaps

-- `BroadcastAll` holds the lock over its loop: no client joins or leaves meanwhile.
unfoldable pub broadcast_all : Event → List Gap → Hub → Outcome Hub
unfolding broadcast_from targets
broadcast_all e gaps h = broadcast_from e (targets (λ c. c.is_registered) h.clients) (locked gaps) h
