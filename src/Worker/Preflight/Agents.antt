-- ===== src/Worker/Preflight/Agents.antt =====
-- grid-worker/internal/preflight/checks.go: the binaries of the permitted agents.
use grid_token_util.Prelude.{
  ℕ, suc, String, Bool, Option, none, some, List, [], ◌∷◌, if◌then◌else◌, str_eq,
}

-- The map `agentBinaries`; `none` is an agent that it does not name.
unfoldable pub binaries_of : String → Option (List String)
binaries_of agent =
    if str_eq agent "claude"
    then some ("claude" ∷ [])
    else if str_eq agent "copilot"
    then some ("gh" ∷ [])
    else if str_eq agent "gemini"
    then some ("gemini" ∷ [])
    else if str_eq agent "chatgpt"
    then some ("sgpt" ∷ [])
    else if str_eq agent "custom"
    then some []
    else none

-- The lengths of `found` and `missing`.
pub record Tally : Type 0 where
  pub found : ℕ
  pub missing : ℕ

unfoldable pub look_up : (String → Bool) → List String → Tally → Tally
look_up look_path [] t = t
look_up look_path (bin ∷ bins) t =
    let t =
      if look_path bin
      then record t { found = suc (t.found) }
      else record t { missing = suc (t.missing) } in
    look_up look_path bins t

-- An agent that the map does not name is skipped.
unfoldable pub look_up_agent : (String → Bool) → Option (List String) → Tally → Tally
look_up_agent look_path none t = t
look_up_agent look_path (some bins) t = look_up look_path bins t

unfoldable pub tally_from : (String → Bool) → List String → Tally → Tally
tally_from look_path [] t = t
tally_from look_path (agent ∷ agents) t =
    tally_from look_path agents (look_up_agent look_path (binaries_of agent) t)

unfoldable pub tally_of : (String → Bool) → List String → Tally
tally_of look_path agents = tally_from look_path agents (record { found = 0; missing = 0 })
