-- ===== src/Worker/Control/Registry.antt =====
-- grid-worker/internal/control/server.go: the map of the handlers.
use grid_token_util.Prelude.{
  String, ◌≡◌, refl, none, some, [], ◌∷◌, arith, if◌then◌else◌, str_eq, str_eq_iff,
}
use grid_token_util.Worker.Control.{
  Command, Codec, CommandHandler, Handlers, register, handler_of, dispatch, failure,
  unknown_command,
}

module _ {S V : Type 0} where
  -- After `Register(kind, handler)` a command of that type has the new handler, whatever was registered before, and every
  -- other type has the handler it had.
  pub handler_of-register :
      (kind other : String) (handler : CommandHandler S V) (handlers : Handlers S V)
      → handler_of other (register kind handler handlers)
        ≡ (if str_eq kind other then some handler else handler_of other handlers)
  unfolding handler_of register
  handler_of-register kind other handler [] = refl
  handler_of-register kind other handler ((k, h) ∷ rest) = ground (
    arith,
    str_eq_iff kind other,
    str_eq_iff k kind,
    str_eq_iff k other,
    handler_of-register kind other handler rest,
  )

  -- A command with no handler leaves the daemon as it was.
  pub dispatch-unknown :
      (codec : Codec V) (handlers : Handlers S V) (cmd : Command) (s : S)
      → handler_of cmd.kind handlers ≡ none
      → dispatch codec handlers cmd s ≡ (s, failure (unknown_command cmd.kind))
  unfolding dispatch
  dispatch-unknown codec handlers cmd s e = ground (arith, e)
