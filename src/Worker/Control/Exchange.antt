-- ===== src/Worker/Control/Exchange.antt =====
-- grid-worker/internal/control/server.go: one command from `SendCommand` to the server and back.
use grid_token_util.Prelude.{
  ◌≤◌, take, true, inl, inr, ℕ, zero, suc, ◌^◌, ◌<◌, ◌≡◌, ◌⊎◌, refl, sym, ap, ◌∙◌, some, [], ◌∷◌,
  ◌++◌, arith, length,
}
use grid_token_util.Worker.Control.{
  Bytes, Command, Response, Codec, Handlers, frame, get_u32, dispatch, max_message, read_message,
  no_length, Link, length_not_written, command_not_written, bad_length, answer, go_on, serve,
  handle_conn, no_response_length, answered, read_response, send_command,
}
use grid_token_util.Worker.Control.Frames.{get_u32-frame, read_full-frame, read_message-cut}
use grid_token_util.Worker.Control.Dialogue.{IsRequest, AllMarshal, handle_conn-converse}

module _ {S V : Type 0} (codec : Codec V) (handlers : Handlers S V) where
  append-empty : (bytes : Bytes) → bytes ++ [] ≡ bytes
  append-empty [] = refl
  append-empty (b ∷ bytes) = ap (λ l. b ∷ l) (append-empty bytes)

  read_response-frame :
      (body : Bytes) (resp : Response)
      → length body < 2 ^ 32
      → codec.unmarshal_response body ≡ some resp
      → read_response codec (frame body ++ []) ≡ answered resp
  unfolding read_response
  read_response-frame body resp h e =
      ground (arith, e, get_u32-frame body [] h, read_full-frame body [])

  handle_conn-frame :
      (out : Response → Bytes) (body : Bytes) (cmd : Command) (s : S)
      → AllMarshal codec handlers out
      → IsRequest codec handlers body cmd
      → let reply = dispatch codec handlers cmd s in
        handle_conn codec handlers (frame body) s
        ≡ record { state = reply.0; sent = frame (out reply.1) ++ [] }
  handle_conn-frame out body cmd s total request =
      ap (λ bytes. handle_conn codec handlers bytes s) (sym (append-empty (frame body)))
      ∙ handle_conn-converse codec handlers out (body ∷ []) (cmd ∷ []) s total (request, tt)

  handle_conn-stops :
      (bytes : Bytes) (s : S)
      → (read_message bytes ≡ no_length) ⊎ (read_message bytes ≡ bad_length)
      → handle_conn codec handlers bytes s ≡ record { state = s; sent = [] }
  unfolding handle_conn serve answer
  handle_conn-stops bytes s bad = serve-stops (length bytes) s bad
    where
      serve-stops :
          (fuel : ℕ) (s : S)
          → (read_message bytes ≡ no_length) ⊎ (read_message bytes ≡ bad_length)
          → serve fuel codec handlers bytes s ≡ record { state = s; sent = [] }
      serve-stops zero s bad = refl
      serve-stops (suc fuel) s (inl e) =
          ap (λ r. go_on (serve fuel codec handlers) (answer codec handlers r s)) e
      serve-stops (suc fuel) s (inr e) =
          ap (λ r. go_on (serve fuel codec handlers) (answer codec handlers r s)) e

  take-all : (n : ℕ) (bytes : Bytes) → length bytes ≤ n → take n bytes ≡ bytes
  take-all zero [] h = refl
  take-all zero (b ∷ bytes) h = absurd (omega arith)
  take-all (suc n) [] h = refl
  take-all (suc n) (b ∷ bytes) h = ap (λ l. b ∷ l) (take-all n bytes (omega arith))

  -- Both writes succeed, and the whole message reaches the server.
  abbrev pub IsWhole : Link → Bytes → Type 0
  IsWhole link body =
      (link.writes_length ≡ true)
      × (link.writes_command ≡ true)
      × (length (frame body) ≤ link.arriving)

  -- Where the command's message is sent whole, the command survives its JSON and has there from 1 to 2^20 bytes, every response that
  -- `dispatch` makes marshals, and its response to this command survives its JSON and has there fewer than 2^32 bytes, `SendCommand`
  -- gets what `dispatch` answers, and the daemon is left in the state that `dispatch` leaves.
  pub send_command-dispatch :
      (out : Response → Bytes) (link : Link) (body : Bytes) (cmd : Command) (s : S)
      → AllMarshal codec handlers out
      → IsWhole link body
      → codec.marshal_command cmd ≡ some body
      → IsRequest codec handlers body cmd
      → let reply = dispatch codec handlers cmd s in
        length (out reply.1) < 2 ^ 32
        → codec.unmarshal_response (out reply.1) ≡ some reply.1
        → send_command codec handlers link (some s) cmd ≡ (some reply.0, answered reply.1)
  unfolding send_command
  send_command-dispatch out link body cmd s total whole e request h back = ground (
    arith,
    e,
    whole,
    ap (λ bytes. handle_conn codec handlers bytes s) (take-all link.arriving (frame body) whole.2)
        ∙ handle_conn-frame out body cmd s total request,
    read_response-frame (out (dispatch codec handlers cmd s).1) (dispatch codec handlers cmd s).1 h
        back,
  )

  -- A command whose JSON has more than 2^20 bytes, and fewer than 2^32, leaves the daemon as it is, however much of it reaches the
  -- server: the client reports that it could not write the length or the command, or, where both writes succeed, that it could not read the
  -- response's length.
  pub send_command-refused :
      (link : Link) (body : Bytes) (cmd : Command) (s : S)
      → codec.marshal_command cmd ≡ some body
      → max_message < length body
      → length body < 2 ^ 32
      → ((send_command codec handlers link (some s) cmd).0 ≡ some s)
        × (((send_command codec handlers link (some s) cmd).1 ≡ length_not_written)
            ⊎ (((send_command codec handlers link (some s) cmd).1 ≡ command_not_written)
                ⊎ ((link.writes_length ≡ true)
                    × (link.writes_command ≡ true)
                    × ((send_command codec handlers link (some s) cmd).1 ≡ no_response_length))))
  unfolding send_command read_response get_u32
  send_command-refused link body cmd s e big h =
      let stopped =
        handle_conn-stops (take link.arriving (frame body)) s
          (read_message-cut link.arriving body big h) in
      (ground (arith, e, stopped), ground (arith, e, stopped))
