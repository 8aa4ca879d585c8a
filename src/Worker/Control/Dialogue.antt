-- ===== src/Worker/Control/Dialogue.antt =====
-- grid-worker/internal/control/server.go: what both sides of a connection get.
use grid_token_util.Prelude.{
  ℕ, zero, suc, ◌≤◌, ◌<◌, ◌≡◌, refl, ap, ◌∙◌, Option, none, some, List, [], ◌∷◌, ◌++◌, arith,
  length, length-append,
}
use grid_token_util.Worker.Control.{
  Bytes, Command, Response, Codec, Handlers, frame, get_u32, dispatch, message, max_message,
  read_message, Received, no_length, bad_length, short_body, write_response, Served, answer, go_on,
  serve, handle_conn,
}
use grid_token_util.Worker.Control.Frames.{read_message-frame, read_message-shorter, length-frame}

module _ {S V : Type 0} (codec : Codec V) (handlers : Handlers S V) where
  answer_left :
      (r : Received) (left : Bytes) (s : S)
      → (answer codec handlers r s).1 ≡ some left
      → (body : Bytes) × (r ≡ message body left)
  unfolding answer
  answer_left (message body more) left s e = (body, ground (arith, e))
  answer_left no_length left s e = cc
  answer_left bad_length left s e = cc
  answer_left short_body left s e = cc

  go_on-agree :
      (next other : Bytes → S → Served S) (now : Served S × Option Bytes)
      → ((left : Bytes) → now.1 ≡ some left → next left now.0.state ≡ other left now.0.state)
      → go_on next now ≡ go_on other now
  go_on-agree next other (now, none) h = refl
  go_on-agree next other (now, some left) h =
      ap (λ (rest : Served S). record rest { sent = now.sent ++ rest.sent }) (h left refl)

  -- Fuel above the number of bytes changes nothing, so that the loop of `handle_conn` always ends by itself.
  serve_enough :
      (fuel more : ℕ) (bytes : Bytes) (s : S)
      → length bytes ≤ fuel
      → length bytes ≤ more
      → serve fuel codec handlers bytes s ≡ serve more codec handlers bytes s
  unfolding serve read_message get_u32 answer
  serve_enough zero zero bytes s p q = refl
  serve_enough zero (suc more) [] s p q = refl
  serve_enough zero (suc more) (b ∷ bytes) s p q = absurd (omega arith)
  serve_enough (suc fuel) zero [] s p q = refl
  serve_enough (suc fuel) zero (b ∷ bytes) s p q = absurd (omega arith)
  serve_enough (suc fuel) (suc more) bytes s p q =
      go_on-agree (serve fuel codec handlers) (serve more codec handlers)
        (answer codec handlers (read_message bytes) s)
        λ left e.
          let (body, r) = answer_left (read_message bytes) left s e in
          let less = read_message-shorter bytes body left r in
          serve_enough fuel more left (answer codec handlers (read_message bytes) s).0.state
            (omega arith) (omega arith)

  -- The commands one after another, as `dispatch` answers them.
  abbrev pub converse : List Command → S → S × List Response
  converse [] s = (s, [])
  converse (cmd ∷ cmds) s =
      let reply = dispatch codec handlers cmd s in
      let rest = converse cmds reply.0 in (rest.0, reply.1 ∷ rest.1)

module _ {S V : Type 0} (codec : Codec V) (handlers : Handlers S V) where
  -- The bytes of several messages.
  abbrev pub frames : List Bytes → Bytes
  frames [] = []
  frames (body ∷ bodies) = frame body ++ frames bodies

  -- A body of a length that the server takes, that decodes to a command.
  abbrev pub IsRequest : Bytes → Command → Type 0
  IsRequest body cmd =
      (0 < length body) × (length body ≤ max_message) × (codec.unmarshal_command body ≡ some cmd)

  abbrev pub AreRequests : List Bytes → List Command → Type 0
  AreRequests [] [] = Unit
  AreRequests (body ∷ bodies) (cmd ∷ cmds) = IsRequest body cmd × AreRequests bodies cmds
  AreRequests [] (cmd ∷ cmds) = ⊥
  AreRequests (body ∷ bodies) [] = ⊥

  -- The bytes of the responses, all of which marshal.
  abbrev pub responses : (Response → Bytes) → List Response → Bytes
  responses out [] = []
  responses out (resp ∷ resps) = frame (out resp) ++ responses out resps

  -- Every response that `dispatch` makes marshals: a result was marshalled by itself, and an error is a text.
  abbrev pub AllMarshal : (Response → Bytes) → Type 0
  AllMarshal out =
      (cmd : Command) (s : S)
      → codec.marshal_response (dispatch codec handlers cmd s).1
        ≡ some (out (dispatch codec handlers cmd s).1)

  answer-message :
      (out : Response → Bytes) (body rest : Bytes) (cmd : Command) (s : S)
      → AllMarshal out
      → codec.unmarshal_command body ≡ some cmd
      → let reply = dispatch codec handlers cmd s in
        answer codec handlers (message body rest) s
        ≡ (record { state = reply.0; sent = frame (out reply.1) }, some rest)
  unfolding answer write_response
  answer-message out body rest cmd s total h = ground (arith, h, total cmd s)

  -- One message of a stream.
  serve-frame :
      (out : Response → Bytes) (body rest : Bytes) (cmd : Command) (fuel : ℕ) (s : S)
      → AllMarshal out
      → IsRequest body cmd
      → let reply = dispatch codec handlers cmd s in
        let after = serve fuel codec handlers rest reply.0 in
        serve (suc fuel) codec handlers (frame body ++ rest) s
        ≡ record { state = after.state; sent = frame (out reply.1) ++ after.sent }
  unfolding serve
  serve-frame out body rest cmd fuel s total h =
      ap (λ r. go_on (serve fuel codec handlers) (answer codec handlers r s))
        (read_message-frame body rest h.0 h.1)
      ∙ ap (go_on (serve fuel codec handlers)) (answer-message out body rest cmd s total h.2)

  serve-nothing :
      (fuel : ℕ) (s : S) → serve fuel codec handlers [] s ≡ record { state = s; sent = [] }
  unfolding serve answer read_message get_u32
  serve-nothing zero s = refl
  serve-nothing (suc fuel) s = refl

  serve-converse :
      (out : Response → Bytes) (bodies : List Bytes) (cmds : List Command) (fuel : ℕ) (s : S)
      → AllMarshal out
      → AreRequests bodies cmds
      → length (frames bodies) ≤ fuel
      → serve fuel codec handlers (frames bodies) s ≡ record {
        state = (converse codec handlers cmds s).0;
        sent = responses out (converse codec handlers cmds s).1;
      }
  serve-converse out [] [] fuel s total all h = serve-nothing fuel s
  serve-converse out [] (cmd ∷ cmds) fuel s total all h = absurd all
  serve-converse out (body ∷ bodies) [] fuel s total all h = absurd all
  serve-converse out (body ∷ bodies) (cmd ∷ cmds) zero s total all h =
      absurd (omega (arith, length-append (frame body) (frames bodies), length-frame body))
  serve-converse out (body ∷ bodies) (cmd ∷ cmds) (suc fuel) s total all h =
      serve-frame out body (frames bodies) cmd fuel s total all.0
      ∙ ap
          (λ (r : Served S). record {
            state = r.state;
            sent = frame (out (dispatch codec handlers cmd s).1) ++ r.sent;
          })
          (serve-converse out bodies cmds fuel (dispatch codec handlers cmd s).0 total all.1
            (omega (arith, length-append (frame body) (frames bodies), length-frame body)))

  pub handle_conn-converse :
      (out : Response → Bytes) (bodies : List Bytes) (cmds : List Command) (s : S)
      → AllMarshal out
      → AreRequests bodies cmds
      → handle_conn codec handlers (frames bodies) s ≡ record {
        state = (converse codec handlers cmds s).0;
        sent = responses out (converse codec handlers cmds s).1;
      }
  unfolding handle_conn
  handle_conn-converse out bodies cmds s total all =
      serve-converse out bodies cmds (length (frames bodies)) s total all (omega arith)
