-- ===== src/Worker/Preflight/Verdict.antt =====
-- grid-worker/internal/preflight/checks.go: what the ten results say together.
use grid_token_util.Prelude.{
  ℕ, ◌≤◌, ◌<◌, ◌≡◌, ◌≢◌, ◌↔◌, ◌⊎◌, map, refl, true, false, Option, none, some, [], ◌∷◌, arith,
  str_eq_iff, All, Option-cases, inl, inr,
}
use grid_token_util.Prelude.Int.{pos, ◌≤ℤ◌}
use grid_token_util.Security.Keys.{bytes_eq_iff}
use grid_token_util.Worker.Client.{validate_api_key}
use grid_token_util.Worker.Preflight.Git.{git_failed, too_old, git_verdict}
use grid_token_util.Worker.Preflight.{
  fail, CheckResult, Config, System, test_bytes, check_api_key, check_tls, check_org_unit,
  check_workspace_rw, check_disk_quota, check_agent_binaries, check_git_version,
  check_scanner_ruleset, rules_status, check_system_time, check_hardware, four_gb, run_all,
  has_failures,
}
use grid_token_util.Worker.Preflight.Binaries.{binaries, IsAbsent, check_agent_binaries-fail}

check_hardware-id : (sys : System) (cfg : Config) → (check_hardware sys cfg).1.id ≡ "PF-10"
unfolding check_hardware
check_hardware-id sys cfg = ground arith

-- Whatever the checks find, the list has the ten results in their order.
pub run_all-ids :
    (sys : System) (cfg : Config)
    → map (λ (r : CheckResult). r.id) (run_all sys cfg).1
      ≡ "PF-01" ∷ "PF-02" ∷ "PF-03" ∷ "PF-04" ∷ "PF-05" ∷ "PF-06" ∷ "PF-07" ∷ "PF-08" ∷ "PF-09"
        ∷ "PF-10" ∷ []
unfolding run_all check_api_key check_tls check_org_unit check_workspace_rw check_disk_quota
    check_agent_binaries check_git_version check_scanner_ruleset check_system_time
run_all-ids sys cfg = rw (check_hardware-id sys cfg) refl

-- Only the limit of jobs can change: it becomes 1 exactly where it is above 1 and the machine has fewer than two processors or
-- less than 4 GB, which it must be able to tell.
pub run_all-max_jobs :
    (sys : System) (cfg : Config) (cpus ram : ℕ)
    → sys.cpu_count ≡ some cpus
    → sys.ram_total ≡ some ram
    → let after = (run_all sys cfg).0 in
      (after.max_jobs ≤ℤ cfg.max_jobs)
      × ((cpus < 2) ⊎ (ram < four_gb) → after.max_jobs ≤ℤ pos 1)
      × (after ≡ record cfg { max_jobs = after.max_jobs })
unfolding run_all check_hardware
run_all-max_jobs sys cfg cpus ram ec er = ground (arith, ec, er)

-- At most sixty seconds, where the server tells its time.
abbrev pub IsClose : Option ℕ → Type 0
IsClose none = Unit
IsClose (some ns) = ns ≤ 60000000000

-- What the daemon needs to go on, told apart from the checks.
pub record IsReady (sys : System) (cfg : Config) : Type 0 where
  pub key_given : cfg.api_key ≢ ""
  pub key_accepted : validate_api_key sys.key_answer ≡ none
  pub org_accepted : validate_api_key sys.org_answer ≡ none
  pub url_given : cfg.url ≢ ""
  pub url_answers : sys.can_build_request ≡ true
  pub url_status : sys.head_status ≢ none
  pub path_given : cfg.base_path ≢ ""
  pub path_made : sys.can_mkdir ≡ true
  pub path_written : sys.can_write ≡ true
  pub path_read : sys.read_back ≡ some test_bytes
  pub some_binary :
      ¬ ((binaries cfg.agents ≢ []) × All (IsAbsent sys.look_path) (binaries cfg.agents))
  pub git_runs : git_verdict (sys.look_path "git") sys.git_version ≢ git_failed
  pub git_recent : git_verdict (sys.look_path "git") sys.git_version ≢ too_old
  pub rules_load : cfg.scan_enabled ≡ true → cfg.ruleset_path ≢ "" → sys.custom_rules ≢ none
  pub clock_close : IsClose sys.drift

module _ (sys : System) (cfg : Config) where
  api_key_lem :
      ((check_api_key sys cfg).status ≢ fail)
      ↔ ((cfg.api_key ≢ "") × (validate_api_key sys.key_answer ≡ none))
  unfolding check_api_key
  api_key_lem =
      ground (arith, str_eq_iff cfg.api_key "", Option-cases (validate_api_key sys.key_answer))

  tls_lem :
      ((check_tls sys cfg).status ≢ fail)
      ↔ ((cfg.url ≢ "") × (sys.can_build_request ≡ true) × (sys.head_status ≢ none))
  unfolding check_tls
  tls_lem = ground (arith, str_eq_iff cfg.url "")

  org_unit_lem : ((check_org_unit sys cfg).status ≢ fail) ↔ (validate_api_key sys.org_answer ≡ none)
  unfolding check_org_unit
  org_unit_lem = ground (arith, Option-cases (validate_api_key sys.org_answer))

  workspace_lem : ((check_workspace_rw sys cfg).status ≢ fail) ↔ (
      (cfg.base_path ≢ "")
      × (sys.can_mkdir ≡ true)
      × (sys.can_write ≡ true)
      × (sys.read_back ≡ some test_bytes))
  unfolding check_workspace_rw
  workspace_lem = elim (Option-cases sys.read_back) [
    | inl e ↦ ground (arith, e, str_eq_iff cfg.base_path "")
    | inr (read, e) ↦ ground (arith, e, str_eq_iff cfg.base_path "", bytes_eq_iff read test_bytes)
  ]

  disk_lem : (check_disk_quota sys cfg).status ≢ fail
  unfolding check_disk_quota
  disk_lem = ground arith

  git_lem : ((check_git_version sys cfg).status ≢ fail) ↔ (
      (git_verdict (sys.look_path "git") sys.git_version ≢ git_failed)
      × (git_verdict (sys.look_path "git") sys.git_version ≢ too_old))
  unfolding check_git_version
  git_lem = ground arith

  ruleset_lem :
      ((check_scanner_ruleset sys cfg).status ≢ fail)
      ↔ (cfg.scan_enabled ≡ true → cfg.ruleset_path ≢ "" → sys.custom_rules ≢ none)
  unfolding check_scanner_ruleset rules_status
  ruleset_lem = ground (arith, str_eq_iff cfg.ruleset_path "")

  time_lem : ((check_system_time sys cfg).status ≢ fail) ↔ IsClose sys.drift
  unfolding check_system_time
  time_lem = ground arith

  hardware_lem : (check_hardware sys cfg).1.status ≢ fail
  unfolding check_hardware
  hardware_lem = ground arith

-- The checks report a failure exactly where one of these needs is not met: the key is there and the server takes it, twice, the
-- URL answers, the workspace can be made, written and read back, some binary of a permitted agent is on the path where any is
-- named, git is at least 2.30 where its version can be read, a custom ruleset that scanning uses loads, and the clock, where the
-- server tells it, is at most 60 seconds off.
pub has_failures-IsReady :
    (sys : System) (cfg : Config) → (has_failures (run_all sys cfg).1 ≡ false) ↔ IsReady sys cfg
unfolding has_failures run_all
has_failures-IsReady sys cfg = ground (
  arith,
  api_key_lem sys cfg,
  tls_lem sys cfg,
  org_unit_lem sys cfg,
  workspace_lem sys cfg,
  disk_lem sys cfg,
  check_agent_binaries-fail sys cfg,
  git_lem sys cfg,
  ruleset_lem sys cfg,
  time_lem sys cfg,
  hardware_lem sys cfg,
)
