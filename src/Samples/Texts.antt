-- ===== src/Samples/Texts.antt =====
-- Runs on patches.
use grid_token_util.Prelude.{false, [], ◌∷◌}
use grid_token_util.Worker.Scanner.{Rule, Ruleset, all_texts}

-- A rule that finds the whole line.
abbrev rule : Rule
rule = record { id = []; name = []; severity = []; scope = all_texts; find_string = λ s. s }

abbrev rules : Ruleset
rules = record {
  rules = rule ∷ [];
  excluded_paths = [];
  excluded_patterns = [];
  glob = λ p s. false;
  base = λ s. s;
}
