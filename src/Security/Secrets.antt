-- ===== src/Security/Secrets.antt =====
-- control-plane/internal/security/secretscan.go: the scanner of secrets. A text that is scanned is the list of its bytes; a regular
-- expression is given by its `FindAllString`.
pub mod Redaction
pub mod Matches
use grid_token_util.Prelude.{
  ℕ, ◌-◌, String, Option, none, some, List, [], ◌∷◌, ◌++◌, if◌then◌else◌, leb, length, take, drop,
  map,
}
use grid_token_util.Security.{Bytes}

pub data Severity : Type 0 where
  critical high medium low : Severity

pub data Scope : Type 0 where
  all payload output : Scope

pub record Pattern : Type 0 where
  pub id : String
  pub name : String
  pub find_all : Bytes → List Bytes
  pub severity : Severity
  pub scope : Scope

pub record Finding : Type 0 where
  pub pattern_id : String
  pub name : String
  pub match : Bytes
  pub severity : Severity

-- "***".
abbrev pub stars : Bytes
stars = 42 ∷ 42 ∷ 42 ∷ []

abbrev visible : ℕ
visible = 3

unfoldable pub redact : Bytes → Bytes
redact s =
    let n = length s in if leb n 6 then stars else take visible s ++ (stars ++ drop (n - visible) s)

abbrev pub finding : Pattern → Bytes → Finding
finding p m = record { pattern_id = p.id; name = p.name; match = redact m; severity = p.severity }

-- The loop over the patterns.
unfoldable pub scan_patterns : List Pattern → Bytes → List Finding
scan_patterns [] text = []
scan_patterns (p ∷ ps) text = map (finding p) (p.find_all text) ++ scan_patterns ps text

-- `none` is the nil scanner, and an error of the call.
unfoldable pub scan_text : Option (List Pattern) → Bytes → Option (List Finding)
scan_text none text = none
scan_text (some ps) text = some (scan_patterns ps text)

-- `regexp.MustCompile` is an argument.
unfoldable pub builtin_patterns : (String → Bytes → List Bytes) → List Pattern
builtin_patterns compile =
    record {
      id = "aws_access_key";
      name = "AWS Access Key ID";
      find_all = compile "(?i)(AKIA|ASIA|AROA)[A-Z0-9]{16}";
      severity = critical;
      scope = all;
    }
    ∷ record {
      id = "aws_secret_key";
      name = "AWS Secret Access Key";
      find_all =
          compile
            "(?i)aws[_\\-\\s]?secret[_\\-\\s]?access[_\\-\\s]?key[\\s]*[=:][\"']?\\s*([A-Za-z0-9/+]{40})";
      severity = critical;
      scope = all;
    }
    ∷ record {
      id = "github_token";
      name = "GitHub Personal Access Token";
      find_all = compile "(ghp_[A-Za-z0-9]{36}|github_pat_[A-Za-z0-9_]{82})";
      severity = critical;
      scope = all;
    }
    ∷ record {
      id = "private_key_pem";
      name = "Private Key PEM Header";
      find_all = compile "-----BEGIN (RSA |EC |DSA |OPENSSH )?PRIVATE KEY-----";
      severity = critical;
      scope = all;
    }
    ∷ record {
      id = "generic_password";
      name = "Generic Password Assignment";
      find_all = compile "(?i)password\\s*[=:]\\s*[\"']?[^\\s\"']{8,}[\"']?";
      severity = high;
      scope = payload;
    }
    ∷ record {
      id = "generic_api_key";
      name = "Generic API Key Assignment";
      find_all =
          compile
            "(?i)(api[_\\-]?key|apikey|api[_\\-]?secret)\\s*[=:]\\s*[\"']?[A-Za-z0-9\\-_]{16,}[\"']?";
      severity = high;
      scope = all;
    }
    ∷ record {
      id = "stripe_secret_key";
      name = "Stripe Secret Key";
      find_all = compile "sk_(live|test)_[A-Za-z0-9]{24,}";
      severity = critical;
      scope = all;
    }
    ∷ []

-- `NewDefaultScanner`.
abbrev pub default_scanner : (String → Bytes → List Bytes) → Option (List Pattern)
default_scanner compile = some (builtin_patterns compile)
