-- ===== src/Worker/Commands/Reach.antt =====
-- What a connection to the control socket can make of the daemon.
use grid_token_util.Prelude.{
  append-All, All, some-injective, ℕ, zero, suc, ◌≡◌, refl, sym, ap, ◌∙◌, String, Bool, true, false,
  Option, none, some, List, [], ◌∷◌, ◌++◌, length, inl, inr, Bool-cases, Option-cases, str_eq,
  subst,
}
use grid_token_util.Domain.{Time}
use grid_token_util.Clock.{Zones}
use grid_token_util.Worker.Daemon.{
  Daemon, Event, step, run, pause_cmd as pauses, resume_cmd as resumes, approve_cmd as approves,
  revoke_cmd as revoked,
}
use grid_token_util.Worker.Control.{
  Bytes, Codec, Handlers, Received, no_length, bad_length, short_body, message, read_message,
  handler_of, dispatch, answer, write_response, go_on, serve, Served, handle_conn, Command,
  CommandHandler,
}
use grid_token_util.Worker.Commands.{Answer, control_handlers}

-- The events that commands of the control socket are.
abbrev pub is_command : Event → Bool
is_command pauses = true
is_command resumes = true
is_command (approves now id) = true
is_command revoked = true
is_command _ = false

module _ (z : Zones) (quote : String → String) (decode : Bytes → Option String) (now : Time)
    (codec : Codec Answer) where
  -- The second state is reached from the first by commands.
  abbrev pub Reaches : Daemon → Daemon → Type 0
  Reaches d d' =
      (events : List Event) × All (λ e. is_command e ≡ true) events × (d' ≡ run z events d)

  run-append : (es fs : List Event) (d : Daemon) → run z (es ++ fs) d ≡ run z fs (run z es d)
  unfolding run
  run-append [] fs d = refl
  run-append (e ∷ es) fs d = run-append es fs (step z e d).0

  Reaches-trans : (a : Daemon) {b c : Daemon} → Reaches a b → Reaches b c → Reaches a c
  Reaches-trans a (es, c, h) (fs, c', k) = (
    es ++ fs,
    append-All (λ e. is_command e ≡ true) es fs c c',
    k ∙ ap (λ d. run z fs d) h ∙ sym (run-append es fs a),
  )

  by_none : (d : Daemon) → Reaches d d
  unfolding run
  by_none d = ([], tt, refl)

  -- A handler that only takes steps of the daemon.
  abbrev Steps : CommandHandler Daemon Answer → Type 0
  Steps h = (payload : Bytes) (d : Daemon) → Reaches d (h payload d).0

  abbrev AllStep : Handlers Daemon Answer → Type 0
  AllStep hs = All (λ (kh : String × CommandHandler Daemon Answer). Steps kh.1) hs

  handler_of-Steps :
      (kind : String) (hs : Handlers Daemon Answer) (h : CommandHandler Daemon Answer)
      → handler_of kind hs ≡ some h
      → AllStep hs
      → Steps h
  unfolding handler_of
  handler_of-Steps kind [] h e all = cc
  handler_of-Steps kind ((k, g) ∷ rest) h e all = elim (Bool-cases (str_eq k kind)) [
    | inl f ↦ subst Steps (some-injective _ _ (rw f at e)) all.0
    | inr f ↦ handler_of-Steps kind rest h (rw f at e) all.1
  ]

  control_handlers-AllStep : AllStep (control_handlers quote decode now)
  unfolding control_handlers step run
  control_handlers-AllStep = (
    λ payload d. ([], tt, refl),
    (
      λ payload d. (pauses ∷ [], (refl, tt), refl),
      (
        λ payload d. (resumes ∷ [], (refl, tt), refl),
        (
          λ payload d. (approves now (decode payload) ∷ [], (refl, tt), refl),
          (λ payload d. (revoked ∷ [], (refl, tt), refl), tt),
        ),
      ),
    ),
  )

  dispatch-Reaches :
      (cmd : Command) (d : Daemon)
      → Reaches d (dispatch codec (control_handlers quote decode now) cmd d).0
  unfolding dispatch
  dispatch-Reaches cmd d =
      elim (Option-cases (handler_of cmd.kind (control_handlers quote decode now))) [
        | inl e ↦ rw (dispatch, e) (by_none d)
        | inr (h, e) ↦
            rw (dispatch, e)
              (handler_of-Steps cmd.kind (control_handlers quote decode now) h e
                control_handlers-AllStep cmd.payload d)
      ]

  answer-Reaches :
      (r : Received) (d : Daemon)
      → Reaches d (answer codec (control_handlers quote decode now) r d).0.state
  unfolding answer
  answer-Reaches no_length d = by_none d
  answer-Reaches bad_length d = by_none d
  answer-Reaches short_body d = by_none d
  answer-Reaches (message body left) d = elim (Option-cases (codec.unmarshal_command body)) [
    | inl e ↦ rw (answer, e) (by_none d)
    | inr (cmd, e) ↦
        let reply = dispatch codec (control_handlers quote decode now) cmd d in
        elim (Option-cases (write_response codec reply.1)) [
          | inl f ↦ rw (answer, e, f) (dispatch-Reaches cmd d)
          | inr (out, f) ↦ rw (answer, e, f) (dispatch-Reaches cmd d)
        ]
  ]

  go_on-Reaches :
      (next : Bytes → Daemon → Served Daemon) (d : Daemon) (r : Served Daemon × Option Bytes)
      → ((bytes : Bytes) (c : Daemon) → Reaches c (next bytes c).state)
      → Reaches d r.0.state
      → Reaches d (go_on next r).state
  go_on-Reaches next d (s, none) later h = h
  go_on-Reaches next d (s, some left) later h = Reaches-trans d h (later left s.state)

  serve-Reaches :
      (fuel : ℕ) (bytes : Bytes) (d : Daemon)
      → Reaches d (serve fuel codec (control_handlers quote decode now) bytes d).state
  unfolding serve
  serve-Reaches zero bytes d = by_none d
  serve-Reaches (suc fuel) bytes d =
      go_on-Reaches (serve fuel codec (control_handlers quote decode now)) d
        (answer codec (control_handlers quote decode now) (read_message bytes) d)
        (serve-Reaches fuel) (answer-Reaches (read_message bytes) d)

  -- Whatever bytes a peer sends, its connection does to the daemon what some sequence of the commands pause, resume, approve and
  -- revoke does.
  pub handle_conn-Reaches :
      (bytes : Bytes) (d : Daemon)
      → Reaches d (handle_conn codec (control_handlers quote decode now) bytes d).state
  unfolding handle_conn
  handle_conn-Reaches bytes d = serve-Reaches (length bytes) bytes d
