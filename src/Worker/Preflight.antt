-- ===== src/Worker/Preflight.antt =====
-- grid-worker/internal/preflight/checks.go: the ten checks before the daemon is idle. What the system answers is a
-- record of results; the texts of the messages, which are only logged, are left out.
pub mod Git
pub mod Agents
pub mod Version
pub mod Binaries
pub mod Verdict
pub mod Boot
use grid_token_util.Prelude.{
  ℕ, ◌*◌, ◌^◌, ◌==◌, String, Bool, true, false, not, ◌&&◌, ◌||◌, Option, none, some, List, [], ◌∷◌,
  if◌then◌else◌, ltb, str_eq, exists,
}
use grid_token_util.Prelude.Int.{ℤ, pos, ltb_ℤ}
use grid_token_util.Security.{Bytes, bytes_eq}
use grid_token_util.Worker.Client.{ClientError, Exchange, validate_api_key}
use grid_token_util.Worker.Preflight.Git.{
  GitVerdict, git_failed, unreadable, too_old, recent, git_verdict,
}
use grid_token_util.Worker.Preflight.Agents.{Tally, tally_of}

pub data Status : Type 0 where
  pass warn fail : Status

pub record CheckResult : Type 0 where
  pub id : String
  pub name : String
  pub status : Status

-- The fields of the configuration that the checks read; `disk_quota` is in bytes.
pub record Config : Type 0 where
  pub api_key : String
  pub url : String
  pub base_path : String
  pub disk_quota : ℕ
  pub max_jobs : ℤ
  pub agents : List String
  pub scan_enabled : Bool
  pub ruleset_path : String

-- What the network, the file system and the machine answer; `none` is an error. Times are in nanoseconds.
pub record System : Type 0 where
  pub key_answer : Exchange
  pub org_answer : Exchange
  pub can_build_request : Bool
  pub head_status : Option ℕ
  pub can_mkdir : Bool
  pub can_write : Bool
  pub read_back : Option Bytes
  pub disk_free : Option ℕ
  pub look_path : String → Bool
  pub git_version : Option Bytes
  pub custom_rules : Option ℕ
  pub default_rules : ℕ
  pub drift : Option ℕ
  pub cpu_count : Option ℕ
  pub ram_total : Option ℕ

abbrev pub when_none : Option ClientError → Status → Status → Status
when_none none a b = a
when_none (some e) a b = b

unfoldable pub check_api_key : System → Config → CheckResult
unfolding validate_api_key
check_api_key sys cfg = record {
  id = "PF-01";
  name = "API Key Validation";
  status =
      if str_eq cfg.api_key "" then fail else when_none (validate_api_key sys.key_answer) pass fail;
}

unfoldable pub check_tls : System → Config → CheckResult
check_tls sys cfg = record {
  id = "PF-02";
  name = "TLS Handshake";
  status =
      if str_eq cfg.url "" || not sys.can_build_request
      then fail
      else elim sys.head_status [ none ↦ fail | some code ↦ pass ];
}

unfoldable pub check_org_unit : System → Config → CheckResult
unfolding validate_api_key
check_org_unit sys cfg = record {
  id = "PF-03";
  name = "Org Unit Resolution";
  status = when_none (validate_api_key sys.org_answer) pass fail;
}

-- The four bytes of "test".
abbrev pub test_bytes : Bytes
test_bytes = 116 ∷ 101 ∷ 115 ∷ 116 ∷ []

unfoldable pub check_workspace_rw : System → Config → CheckResult
check_workspace_rw sys cfg = record {
  id = "PF-04";
  name = "Workspace Read/Write";
  status =
      if str_eq cfg.base_path "" || not sys.can_mkdir || not sys.can_write
      then fail
      else elim sys.read_back [
        | none ↦ fail
        | some read ↦ if bytes_eq read test_bytes then pass else fail
      ];
}

unfoldable pub check_disk_quota : System → Config → CheckResult
check_disk_quota sys cfg = record {
  id = "PF-05";
  name = "Disk Space";
  status = if str_eq cfg.base_path "" then warn else elim sys.disk_free [
    | none ↦ warn
    | some free ↦ if ltb free cfg.disk_quota then warn else pass
  ];
}

-- With no permitted agent there is nothing to find.
unfoldable pub agents_status : List String → Tally → Status
agents_status [] t = warn
agents_status (_ ∷ _) t =
    if t.found == 0 && not (t.missing == 0) then fail else if t.missing == 0 then pass else warn

unfoldable pub check_agent_binaries : System → Config → CheckResult
unfolding agents_status
check_agent_binaries sys cfg = record {
  id = "PF-06";
  name = "Agent Binaries";
  status = agents_status cfg.agents (tally_of sys.look_path cfg.agents);
}

unfoldable pub check_git_version : System → Config → CheckResult
unfolding git_verdict
check_git_version sys cfg = record {
  id = "PF-07";
  name = "Git Version";
  status = elim (git_verdict (sys.look_path "git") sys.git_version) [
    | git_failed ↦ fail
    | unreadable ↦ warn
    | too_old ↦ fail
    | recent ↦ pass
  ];
}

unfoldable pub rules_status : ℕ → Status
rules_status n = if n == 0 then warn else pass

unfoldable pub check_scanner_ruleset : System → Config → CheckResult
unfolding rules_status
check_scanner_ruleset sys cfg = record {
  id = "PF-08";
  name = "Scanner Ruleset";
  status =
      if not cfg.scan_enabled
      then pass
      else if str_eq cfg.ruleset_path ""
      then rules_status sys.default_rules
      else elim sys.custom_rules [ none ↦ fail | some n ↦ rules_status n ];
}

unfoldable pub check_system_time : System → Config → CheckResult
check_system_time sys cfg = record {
  id = "PF-09";
  name = "System Time Sync";
  status = elim sys.drift [ none ↦ warn | some ns ↦ if ltb 60000000000 ns then fail else pass ];
}

-- `MaxJobs` above 1 becomes 1.
abbrev pub one_job : Config → Config
one_job cfg = if ltb_ℤ (pos 1) cfg.max_jobs then record cfg { max_jobs = pos 1 } else cfg

abbrev pub hardware : Status → CheckResult
hardware s = record { id = "PF-10"; name = "Hardware Requirements"; status = s }

abbrev pub four_gb : ℕ
four_gb = 4 * 2 ^ 30

unfoldable pub check_hardware : System → Config → Config × CheckResult
check_hardware sys cfg = elim sys.cpu_count [
  | none ↦ (cfg, hardware warn)
  | some cpus ↦ elim sys.ram_total [
    | none ↦ (cfg, hardware warn)
    | some ram ↦
        let few = ltb cpus 2 in
        let small = ltb ram four_gb in
        (
          (if few || small then one_job cfg else cfg),
          hardware (if few || small then warn else pass),
        )
  ]
]

-- The results in the order of the list of checks, and the configuration after them.
unfoldable pub run_all : System → Config → Config × List CheckResult
unfolding check_hardware
run_all sys cfg =
    let last = check_hardware sys cfg in
    (
      last.0,
      check_api_key sys cfg
          ∷ check_tls sys cfg
          ∷ check_org_unit sys cfg
          ∷ check_workspace_rw sys cfg
          ∷ check_disk_quota sys cfg
          ∷ check_agent_binaries sys cfg
          ∷ check_git_version sys cfg
          ∷ check_scanner_ruleset sys cfg
          ∷ check_system_time sys cfg
          ∷ last.1
          ∷ [],
    )

abbrev pub is_fail : Status → Bool
is_fail fail = true
is_fail _ = false

unfoldable pub has_failures : List CheckResult → Bool
has_failures results = exists (λ (r : CheckResult). is_fail r.status) results
