-- ===== src/Samples/Live.antt =====
-- Runs of the dashboard, the routes and the audit.
use grid_token_util.Prelude.{
  ℕ, ◌+◌, ◌≤◌, ◌≡◌, ◌≢◌, refl, String, true, false, none, some, List, [], ◌∷◌, ◌++◌, Memᴰ, All,
  find, length, arith,
}
use mathlib.Core.List.{Permᴰ}
use grid_token_util.Prelude.Results.{ok, err, query_failed}
use grid_token_util.Prelude.Replies.{answer}
use grid_token_util.Domain.{Uuid}
use grid_token_util.Api.Context.{Context}
use grid_token_util.Api.RateLimit.{served}
use grid_token_util.Api.Audit.{post, is_mutating}
use grid_token_util.Api.Routes.{
  Action, create_task, Route, Part, routes, serve_api, limit_and_route, run_route,
}
use grid_token_util.Api.Auth.{scope_required, has_scope}
use grid_token_util.Api.Routes.Gate.{Grants, serve_api-gate}
use grid_token_util.Api.Dashboard.{Source, queries, blank, finish, snapshot}
use grid_token_util.Api.Dashboard.Panels.{IsOwn, snapshot-IsOwn}
use grid_token_util.Dashboard.Gather.{gather}
use grid_token_util.Dashboard.Snapshot.{
  workers, queued, running, completed, usage, earners, events, Answers, build, build-panels,
}
use grid_token_util.Dashboard.Hub.{
  Payload, Event, Client, Hub, returned, panicked, capacity, new_hub, total, has_id, Call, joins,
  sends_to, leaves, Gap, register, serve_sse, serves, run, step, unregister, send_later, send_where,
  send, serve_next, write_next,
}
use grid_token_util.Dashboard.Hub.Sends.{IsSound}
use grid_token_util.Dashboard.Hub.Invariant.{ArePermitted, run_bounded}
use grid_token_util.Dashboard.Hub.Order.{addressed, IsSub, stream, run-stream}
use grid_token_util.Dashboard.Hub.Races.{send_later-panics}
use grid_token_util.Dashboard.Projector.{Message}
use grid_token_util.Security.{Bytes, ArgonParams}
use grid_token_util.Samples.Data.{sample_db, waiting_high}

abbrev news : Event
news = record { id = "1-0"; kind = "task"; payload = Payload.nothing }

abbrev watcher : Client
watcher = record {
  id = 7;
  org = 1;
  channel = [];
  is_open = true;
  is_registered = true;
  written = [];
}

abbrev hub_one : Hub
hub_one = record { clients = watcher ∷ []; max_clients = 2 }

abbrev calls : List Call
calls = sends_to 7 news ∷ joins true 8 2 news ∷ serves 7 ∷ sends_to 7 news ∷ []

abbrev hub_after : Hub
hub_after = record {
  clients =
      record {
        id = 8;
        org = 2;
        channel = [];
        is_open = true;
        is_registered = true;
        written = news ∷ [];
      }
      ∷ record watcher { channel = news ∷ []; written = news ∷ [] }
      ∷ [];
  max_clients = 2;
}

run-stream_example :
    (d : Client) × (new : List Event) × (find (has_id 7) hub_after.clients ≡ some d)
    × (stream d ≡ stream watcher ++ new)
    × IsSub new (addressed 7 calls)
    × (length watcher.channel + length (addressed 7 calls) ≤ capacity → new ≡ addressed 7 calls)
unfolding run step send_later send_where send serve_next write_next serve_sse register total
run-stream_example =
    run-stream calls hub_one hub_after watcher (refl, refl)
      (tt, ((λ e. absurd (omega (arith, e))), (tt, (tt, tt)))) refl

abbrev full_house : List Call
full_house = joins true 7 1 news ∷ sends_to 7 news ∷ serves 7 ∷ []

run_bounded_example :
    (k : Hub) × (run full_house (new_hub 1) ≡ returned k)
    × (total k.clients ≤ 1)
    × All IsSound k.clients
unfolding ArePermitted step serve_sse register total
run_bounded_example =
    run_bounded full_house 1 (tt, λ k e. (ground (arith, e), λ l f. (tt, λ m g. tt)))

abbrev hub_left : Hub
hub_left = record {
  clients = record watcher { is_open = false; is_registered = false } ∷ [];
  max_clients = 2;
}

send_later-panics_example : send_later 7 news hub_left ≡ panicked
unfolding unregister
send_later-panics_example = send_later-panics hub_one hub_left watcher news (refl, refl) refl

abbrev message : Message
message = record { id = "1-0"; kind = some "task"; body = none }

-- The watcher's connection ends while the broadcast is about to send to it.
abbrev leaving : Gap
leaving = record { before = serves 7 ∷ []; between = leaves 7 ∷ [] }

abbrev answers : Answers ℕ ℕ ℕ
answers = record {
  worker_rows = err query_failed;
  queued_rows = ok (waiting_high ∷ []);
  running_rows = ok [];
  completed_rows = ok [];
  usage_rows = ok (5 ∷ []);
  entry_rows = ok [];
  event_rows = err query_failed;
}

build-panels_example :
    build answers (queued ∷ workers ∷ running ∷ completed ∷ usage ∷ earners ∷ events ∷ []) 9
    ≡ record {
      workers = [];
      queued_tasks = waiting_high ∷ [];
      running_tasks = [];
      recent_completed = [];
      token_usage = 5 ∷ [];
      leaderboard = [];
      security_events = [];
      generated_at = 9;
    }
build-panels_example =
    build-panels answers (queued ∷ workers ∷ running ∷ completed ∷ usage ∷ earners ∷ events ∷ []) 9
      (Permᴰ.swap refl refl)

abbrev caller : Context
caller = record {
  org_unit_id = some 1;
  worker_id = none;
  api_key_id = some 4;
  scopes = some ("tasks:write" ∷ []);
}

abbrev source : Source
source = record { db = sample_db; view = []; log = []; fails = λ q. false }

snapshot-IsOwn_example :
    (org : Uuid) × (caller.org_unit_id ≡ some org)
    × IsOwn org (gather (finish source 1 99) queries (blank 99))
unfolding snapshot
snapshot-IsOwn_example =
    snapshot-IsOwn source 99 caller queries (gather (finish source 1 99) queries (blank 99)) refl

abbrev creation : Route
creation = record {
  verb = post;
  parts = Part.text "tasks" ∷ [];
  scope = some "tasks:write";
  action = create_task;
}

abbrev handler : Action → Context → ℕ
handler a c = 201

abbrev path : List String
path = "api" ∷ "v1" ∷ "tasks" ∷ []

serve_api-gate_example :
    (c : Context) × (answer caller ≡ answer c)
    × (served ≡ served)
    × (create_task ≡ create_task)
    × Grants (some "tasks:write") c.scopes
    × (is_mutating post ≡ true → creation.scope ≢ none)
unfolding serve_api limit_and_route run_route scope_required has_scope routes
serve_api-gate_example =
    serve_api-gate handler 50 99 (answer caller) none served post path creation none create_task
      true true (Memᴰ.tail (Memᴰ.head refl)) refl refl

-- A header with a key that no row has.
abbrev derive : ArgonParams → Bytes → Bytes → Bytes
derive p s t = 7 ∷ []

abbrev header : String
header = "Bearer gw_abcdefghij"
