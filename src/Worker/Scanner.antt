-- ===== src/Worker/Scanner.antt =====
-- grid-worker/internal/scanner/scanner.go. A text is the list of its bytes, a line without its end. The regular
-- expressions, `filepath.Match` and `filepath.Base` are arguments; a line number stays below 2^63.
pub mod Patches
use grid_token_util.Prelude.{
  ℕ, zero, suc, ◌+◌, ◌-◌, ◌*◌, ◌==◌, Bool, true, false, not, ◌&&◌, ◌||◌, List, [], ◌∷◌, ◌++◌,
  if◌then◌else◌, leb, ltb, take, drop, length,
}
use grid_token_util.Security.{Bytes, bytes_eq}
use grid_token_util.Worker.Paths.{has_prefix}

pub data Scope : Type 0 where
  all_texts diff_only workspace_only : Scope

-- `find_string` is `Pattern.FindString`: empty where nothing matches.
pub record Rule : Type 0 where
  pub id : Bytes
  pub name : Bytes
  pub severity : Bytes
  pub scope : Scope
  pub find_string : Bytes → Bytes

pub record Ruleset : Type 0 where
  pub rules : List Rule
  pub excluded_paths : List Bytes
  pub excluded_patterns : List Bytes
  pub glob : Bytes → Bytes → Bool
  pub base : Bytes → Bytes

pub record Finding : Type 0 where
  pub rule_id : Bytes
  pub rule_name : Bytes
  pub severity : Bytes
  pub file_path : Bytes
  pub line : ℕ
  pub matched : Bytes

-- "***".
abbrev pub stars : Bytes
stars = 42 ∷ 42 ∷ 42 ∷ []

unfoldable pub redact : Bytes → Bytes
redact s = if leb (length s) 4 then stars else take 4 s ++ stars

abbrev path_excluded : Ruleset → Bytes → List Bytes → Bool
path_excluded rs path [] = false
path_excluded rs path (p ∷ ps) =
    rs.glob p path || rs.glob p (rs.base path) || path_excluded rs path ps

unfoldable pub is_excluded_path : Ruleset → Bytes → Bool
is_excluded_path rs path = path_excluded rs path rs.excluded_paths

-- `strings.Contains`.
unfoldable pub contains : Bytes → Bytes → Bool
unfolding has_prefix
contains [] t = has_prefix [] t
contains (a ∷ s) t = has_prefix (a ∷ s) t || contains s t

abbrev line_excluded : Bytes → List Bytes → Bool
line_excluded line [] = false
line_excluded line (p ∷ ps) = contains line p || line_excluded line ps

unfoldable pub is_excluded_pattern : Ruleset → Bytes → Bool
unfolding contains
is_excluded_pattern rs line = line_excluded line rs.excluded_patterns

abbrev pub finding : Rule → Bytes → ℕ → Bytes → Finding
finding r path n m = record {
  rule_id = r.id;
  rule_name = r.name;
  severity = r.severity;
  file_path = path;
  line = n;
  matched = redact m;
}

abbrev pub is_empty : Bytes → Bool
is_empty [] = true
is_empty (b ∷ bs) = false

-- One rule over the lines of a text, the first of which has the number `n`.
unfoldable pub scan_rule : Ruleset → Bytes → Rule → ℕ → List Bytes → List Finding
unfolding is_excluded_pattern redact
scan_rule rs path r n [] = []
scan_rule rs path r n (l ∷ ls) =
    let rest = scan_rule rs path r (suc n) ls in
    if is_excluded_pattern rs l || is_empty (r.find_string l)
    then rest
    else finding r path n (r.find_string l) ∷ rest

unfoldable pub scan_rules : Ruleset → Bytes → List Rule → List Bytes → List Finding
unfolding scan_rule
scan_rules rs path [] ls = []
scan_rules rs path (r ∷ others) ls = scan_rule rs path r 1 ls ++ scan_rules rs path others ls

-- `ScanText` over the lines of the text.
unfoldable pub scan_text : Ruleset → Bytes → List Bytes → List Finding
unfolding is_excluded_path scan_rules
scan_text rs path ls = if is_excluded_path rs path then [] else scan_rules rs path rs.rules ls

-- "+", "-", "+++", "+++ b/" and "@@".
abbrev pub plus : ℕ
plus = 43

abbrev pub plus_line : Bytes
plus_line = plus ∷ []

abbrev pub minus_line : Bytes
minus_line = 45 ∷ []

abbrev pub plus_header : Bytes
plus_header = plus ∷ plus ∷ plus ∷ []

abbrev pub file_header : Bytes
file_header = plus ∷ plus ∷ plus ∷ 32 ∷ 98 ∷ 47 ∷ []

abbrev pub hunk_header : Bytes
hunk_header = 64 ∷ 64 ∷ []

-- What follows the first "+", empty where there is none, and its digits as a number.
unfoldable pub after_plus : Bytes → Bytes
after_plus [] = []
after_plus (b ∷ bs) = let rest = after_plus bs in if b == plus then bs else rest

unfoldable pub digits : ℕ → Bytes → ℕ
digits n [] = n
digits n (b ∷ bs) =
    let rest = digits (n * 10 + (b - 48)) bs in if leb 48 b && leb b 57 then rest else n

unfoldable pub parse_diff_line_num : Bytes → ℕ
unfolding after_plus digits
parse_diff_line_num line = digits 0 (after_plus line) - 1

pub record Cursor : Type 0 where
  pub file : Bytes
  pub line : ℕ

abbrev pub is_added : Bytes → Bool
is_added l = has_prefix l plus_line && not (has_prefix l plus_header)

-- The file and the number of the last line, after a line of the patch.
unfoldable pub advance : Cursor → Bytes → Cursor
unfolding has_prefix parse_diff_line_num
advance c l =
    if has_prefix l file_header
    then record { file = drop 6 l; line = 0 }
    else if has_prefix l hunk_header
    then record c { line = parse_diff_line_num l }
    else if is_added l || not (has_prefix l minus_line)
    then record c { line = suc c.line }
    else c

abbrev pub is_skipped : Scope → Bool
is_skipped workspace_only = true
is_skipped _ = false

unfoldable pub apply_rules : Cursor → Bytes → List Rule → List Finding
unfolding redact
apply_rules c content [] = []
apply_rules c content (r ∷ rs) =
    let rest = apply_rules c content rs in
    if is_skipped r.scope || is_empty (r.find_string content)
    then rest
    else finding r c.file c.line (r.find_string content) ∷ rest

unfoldable pub scan_added : Ruleset → Cursor → Bytes → List Finding
unfolding has_prefix is_excluded_path is_excluded_pattern apply_rules
scan_added rs c l =
    if not (is_added l)
      || has_prefix l hunk_header
      || is_excluded_path rs c.file
      || is_excluded_pattern rs (drop 1 l)
    then []
    else apply_rules c (drop 1 l) rs.rules

-- `ScanPatch` over the lines that `bufio.Scanner` reads; the flag of a line tells whether the context is
-- cancelled when it is read. Answers the findings, and whether there was an error.
unfoldable pub scan_from : Ruleset → Cursor → List (Bytes × Bool) → List Finding × Bool
unfolding advance scan_added
scan_from rs c [] = ([], false)
scan_from rs c ((l, cancelled) ∷ ls) =
    let rest = scan_from rs (advance c l) ls in
    if cancelled then ([], true) else (scan_added rs (advance c l) l ++ rest.0, rest.1)

unfoldable pub scan_patch : Ruleset → List (Bytes × Bool) → List Finding × Bool
unfolding scan_from
scan_patch rs ls = scan_from rs (record { file = []; line = 0 }) ls
