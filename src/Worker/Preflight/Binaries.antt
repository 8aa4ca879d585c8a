-- ===== src/Worker/Preflight/Binaries.antt =====
-- grid-worker/internal/preflight/checks.go: when the check of the agents' binaries fails.
use grid_token_util.Prelude.{
  suc, ◌+◌, ◌≤◌, ◌≡◌, ◌≢◌, ◌↔◌, refl, String, Bool, false, Option, none, some, List, [], ◌∷◌, ◌++◌,
  arith, All, length, Bool-cases, inl, inr, sym, ◌∙◌,
}
use grid_token_util.Worker.Preflight.Agents.{
  Tally, tally_of, tally_from, look_up, look_up_agent, binaries_of,
}
use grid_token_util.Worker.Preflight.{fail, Config, System, agents_status, check_agent_binaries}

abbrev pub or_empty : Option (List String) → List String
or_empty none = []
or_empty (some bins) = bins

-- The binaries of the agents that the map names.
abbrev pub binaries : List String → List String
binaries [] = []
binaries (agent ∷ agents) = or_empty (binaries_of agent) ++ binaries agents

abbrev pub IsAbsent : (String → Bool) → String → Type 0
IsAbsent look_path bin = look_path bin ≡ false

module _ (look_path : String → Bool) where
  -- The numbers that the tally reaches from the ones it has.
  look_up-append :
      (bins more : List String) (t : Tally)
      → look_up look_path (bins ++ more) t ≡ look_up look_path more (look_up look_path bins t)
  unfolding look_up
  look_up-append [] more t = refl
  look_up-append (bin ∷ bins) more t = look_up-append bins more _

  look_up_agent-append :
      (bins : Option (List String)) (more : List String) (t : Tally)
      → look_up look_path more (look_up_agent look_path bins t)
        ≡ look_up look_path (or_empty bins ++ more) t
  unfolding look_up_agent
  look_up_agent-append none more t = refl
  look_up_agent-append (some bins) more t = sym (look_up-append bins more t)

  tally_from-binaries :
      (agents : List String) (t : Tally)
      → tally_from look_path agents t ≡ look_up look_path (binaries agents) t
  unfolding tally_from look_up
  tally_from-binaries [] t = refl
  tally_from-binaries (agent ∷ agents) t =
      tally_from-binaries agents (look_up_agent look_path (binaries_of agent) t)
      ∙ look_up_agent-append (binaries_of agent) (binaries agents) t

  -- Every binary is counted once, and none is counted as found exactly where none is on the path.
  look_up_counts :
      (bins : List String) (t : Tally)
      → let u = look_up look_path bins t in
        (t.found ≤ u.found)
        × ((u.found ≡ t.found) ↔ All (IsAbsent look_path) bins)
        × (u.found + u.missing ≡ t.found + t.missing + length bins)
  unfolding look_up
  look_up_counts [] t = ground arith
  look_up_counts (bin ∷ bins) t = elim (Bool-cases (look_path bin)) [
    | inl e ↦
        rw (e, look_up)
          (ground (arith, e, look_up_counts bins (record t { found = suc (t.found) })))
    | inr e ↦
        rw (e, look_up)
          (ground (arith, e, look_up_counts bins (record t { missing = suc (t.missing) })))
  ]

agents_status-fail :
    (look_path : String → Bool) (agents : List String)
    → let t = tally_of look_path agents in
      (agents_status agents t ≡ fail) ↔ ((t.found ≡ 0) × (t.missing ≢ 0))
unfolding agents_status tally_of tally_from
agents_status-fail look_path [] = ground arith
agents_status-fail look_path (agent ∷ agents) = ground arith

length-zero : (bins : List String) → (length bins ≡ 0) ↔ (bins ≡ [])
length-zero [] = ground arith
length-zero (bin ∷ bins) = ((λ h. absurd (omega (arith, h))), λ h. cc)

-- The check of the agents' binaries fails exactly where some permitted agent that the map names has a binary and none of
-- these binaries is on the path. (An agent that it does not name, or names with no binary, is never missed.)
pub check_agent_binaries-fail :
    (sys : System) (cfg : Config)
    → ((check_agent_binaries sys cfg).status ≡ fail)
      ↔ ((binaries cfg.agents ≢ []) × All (IsAbsent sys.look_path) (binaries cfg.agents))
unfolding check_agent_binaries tally_of
check_agent_binaries-fail sys cfg =
    let zero_tally : Tally = record { found = 0; missing = 0 } in
    let same : tally_of sys.look_path cfg.agents
        ≡ look_up sys.look_path (binaries cfg.agents) zero_tally =
      tally_from-binaries sys.look_path cfg.agents zero_tally in
    ground (
      arith,
      agents_status-fail sys.look_path cfg.agents,
      same,
      look_up_counts sys.look_path (binaries cfg.agents) zero_tally,
      length-zero (binaries cfg.agents),
    )
