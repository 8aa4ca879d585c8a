-- ===== src/Worker/Control.antt =====
-- grid-worker/internal/control/server.go: the local socket between the command line and the daemon. A connection
-- is the bytes that the peer sends and the bytes that go back. The JSON codec is `encoding/json`, which is not part of
-- the repository: its functions are arguments.
pub mod Frames
pub mod Registry
pub mod Dialogue
pub mod Exchange
use grid_token_util.Prelude.{
  ℕ, zero, suc, ◌+◌, ◌*◌, ◌/◌, ◌%◌, ◌^◌, ◌==◌, String, Bool, true, false, not, ◌||◌, Option, none,
  some, List, [], ◌∷◌, ◌++◌, if◌then◌else◌, ltb, leb, take, drop, length, str_eq,
}

abbrev pub Bytes : Type 0
Bytes = List ℕ

-- `Payload` and `Data` are `json.RawMessage`.
pub record Command : Type 0 where
  pub kind : String
  pub payload : Bytes

-- The texts of the errors that the server makes itself, and a handler's own.
pub data Fault : Type 0 where
  unknown_command : String → Fault
  handler_error : String → Fault
  marshal_failed invalid_json : Fault

-- `OK` with its data, or the error.
pub data Response : Type 0 where
  success : Option Bytes → Response
  failure : Fault → Response

-- What a handler returns: an error, a nil result, or a value.
pub data Outcome (V : Type 0) : Type 0 where
  failed : String → Outcome V
  nothing : Outcome V
  value : V → Outcome V

-- A handler acts on the daemon's state.
abbrev pub CommandHandler : Type 0 → Type 0 → Type 0
CommandHandler S V = Bytes → S → S × Outcome V

-- `encoding/json` at the four types that cross the socket; `none` is its error.
pub record Codec (V : Type 0) : Type 0 where
  pub marshal_command : Command → Option Bytes
  pub unmarshal_command : Bytes → Option Command
  pub marshal_value : V → Option Bytes
  pub marshal_response : Response → Option Bytes
  pub unmarshal_response : Bytes → Option Response

-- `binary.Write(w, binary.BigEndian, uint32(n))`.
unfoldable pub put_u32 : ℕ → Bytes
put_u32 n = n / 2 ^ 24 % 256 ∷ n / 2 ^ 16 % 256 ∷ n / 2 ^ 8 % 256 ∷ n % 256 ∷ []

-- `binary.Read` of a `uint32`, `none` where fewer than four bytes come.
unfoldable pub get_u32 : Bytes → Option (ℕ × Bytes)
get_u32 (a ∷ b ∷ c ∷ d ∷ rest) = some (a * 2 ^ 24 + b * 2 ^ 16 + c * 2 ^ 8 + d, rest)
get_u32 _ = none

-- `io.ReadFull(conn, make([]byte, n))`.
unfoldable pub read_full : ℕ → Bytes → Option (Bytes × Bytes)
read_full n bytes = if leb n (length bytes) then some (take n bytes, drop n bytes) else none

-- A length prefix and a body, as both sides write them.
unfoldable pub frame : Bytes → Bytes
unfolding put_u32
frame body = put_u32 (length body) ++ body

-- How the server reads one message.
pub data Received : Type 0 where
  no_length bad_length short_body : Received
  message : Bytes → Bytes → Received

-- 1 << 20.
abbrev pub max_message : ℕ
max_message = 1048576

unfoldable pub read_message : Bytes → Received
read_message bytes = elim (get_u32 bytes) [
  | none ↦ no_length
  | some (n, rest) ↦
      if n == 0 || ltb max_message n
      then bad_length
      else elim (read_full n rest) [ none ↦ short_body | some (body, left) ↦ message body left ]
]

abbrev pub Handlers : Type 0 → Type 0 → Type 0
Handlers S V = List (String × CommandHandler S V)

module _ {S V : Type 0} where
  -- The map of handlers: a name that is registered again is replaced.
  unfoldable pub register : String → CommandHandler S V → Handlers S V → Handlers S V
  register kind handler [] = (kind, handler) ∷ []
  register kind handler ((k, h) ∷ rest) =
      let more = register kind handler rest in
      if str_eq k kind then (kind, handler) ∷ rest else (k, h) ∷ more

  unfoldable pub handler_of : String → Handlers S V → Option (CommandHandler S V)
  handler_of kind [] = none
  handler_of kind ((k, h) ∷ rest) = if str_eq k kind then some h else handler_of kind rest

-- What is left of a handler's result in the response.
unfoldable pub respond_to : {V : Type 0} → Codec V → Outcome V → Response
respond_to codec (failed text) = failure (handler_error text)
respond_to codec nothing = success none
respond_to codec (value v) = elim (codec.marshal_value v) [
  | none ↦ failure marshal_failed
  | some body ↦ success (some body)
]

unfoldable pub dispatch : {S V : Type 0} → Codec V → Handlers S V → Command → S → S × Response
dispatch codec handlers cmd s = elim (handler_of cmd.kind handlers) [
  | none ↦ (s, failure (unknown_command cmd.kind))
  | some h ↦ let r = h cmd.payload s in (r.0, respond_to codec r.1)
]

-- The bytes of a response; `none` is the error of `json.Marshal`.
unfoldable pub write_response : {V : Type 0} → Codec V → Response → Option Bytes
write_response codec resp = elim (codec.marshal_response resp) [
  | none ↦ none
  | some body ↦ some (frame body)
]

-- What a connection has left: the daemon's state and the bytes that were sent back.
pub record Served (S : Type 0) : Type 0 where
  pub state : S
  pub sent : Bytes

-- The next turn of the loop of a connection, where there is one.
abbrev pub go_on : {S : Type 0} → (Bytes → S → Served S) → Served S × Option Bytes → Served S
go_on next (now, none) = now
go_on next (now, some left) =
    let rest = next left now.state in record rest { sent = now.sent ++ rest.sent }

abbrev pub sent_or_nothing : Option Bytes → Bytes
sent_or_nothing none = []
sent_or_nothing (some out) = out

module _ {S V : Type 0} where
  -- The answer to what was read: what is sent, and the bytes after it where the loop goes on.
  unfoldable pub answer : Codec V → Handlers S V → Received → S → Served S × Option Bytes
  answer codec handlers (message body left) s = elim (codec.unmarshal_command body) [
    | none ↦
        let out = sent_or_nothing (write_response codec (failure invalid_json)) in
        (record { state = s; sent = out }, none)
    | some cmd ↦
        let reply = dispatch codec handlers cmd s in
        elim (write_response codec reply.1) [
          | none ↦ (record { state = reply.0; sent = [] }, none)
          | some out ↦ (record { state = reply.0; sent = out }, some left)
        ]
  ]
  answer codec handlers _ s = (record { state = s; sent = [] }, none)

  -- The loop of `handleConn`; `fuel` bounds the turns. The peer reads what is written.
  unfoldable pub serve : ℕ → Codec V → Handlers S V → Bytes → S → Served S
  serve zero codec handlers bytes s = record { state = s; sent = [] }
  serve (suc fuel) codec handlers bytes s =
      go_on (serve fuel codec handlers) (answer codec handlers (read_message bytes) s)

  -- Each message takes at least five bytes.
  unfoldable pub handle_conn : Codec V → Handlers S V → Bytes → S → Served S
  handle_conn codec handlers bytes s = serve (length bytes) codec handlers bytes s

-- The errors of `SendCommand`, by what it could not do, and its response.
pub data Answer : Type 0 where
  not_connected not_marshalled length_not_written command_not_written : Answer
  no_response_length no_response_body not_parsed : Answer
  answered : Response → Answer

-- What the socket makes of the two writes of the client: whether each returns without an error, and how many bytes reach the server.
pub record Link : Type 0 where
  pub writes_length : Bool
  pub writes_command : Bool
  pub arriving : ℕ

-- How the client reads the response: there is no limit on its length.
unfoldable pub read_response : {V : Type 0} → Codec V → Bytes → Answer
read_response codec bytes = elim (get_u32 bytes) [
  | none ↦ no_response_length
  | some (n, rest) ↦ elim (read_full n rest) [
    | none ↦ no_response_body
    | some (body, _) ↦ elim (codec.unmarshal_response body) [
      | none ↦ not_parsed
      | some resp ↦ answered resp
    ]
  ]
]

-- `SendCommand` to a server that listens, with the daemon's state after it.
unfoldable pub send_command :
    {S V : Type 0} → Codec V → Handlers S V → Link → Option S → Command → Option S × Answer
send_command codec handlers link none cmd = (none, not_connected)
send_command codec handlers link (some s) cmd = elim (codec.marshal_command cmd) [
  | none ↦ (some s, not_marshalled)
  | some body ↦
      let done = handle_conn codec handlers (take link.arriving (frame body)) s in
      (
        some done.state,
        if not link.writes_length
            then length_not_written
            else if not link.writes_command
            then command_not_written
            else read_response codec done.sent,
      )
]
