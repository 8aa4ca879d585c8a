-- ===== src/Config.antt =====
-- The validation of the configurations: control-plane/internal/config/config.go and grid-worker/internal/config/config.go. Reading
-- the file and the environment is viper's, which is not part of the repository. An error is named by what it is about; a length counts
-- characters, which are the bytes of an ASCII text.
pub mod Valid
use Prim.Native.String.{len}
use grid_token_util.Prelude.{
  ℕ, String, Bool, true, false, not, ◌&&◌, ◌||◌, List, [], ◌∷◌, if◌then◌else◌, str_eq, ltb,
}
use grid_token_util.Prelude.Int.{ℤ, pos, ltb_ℤ, leb_ℤ}

-- `if … { errs = append(errs, …) }`, in the order of the tests.
abbrev pub error_if : Bool → String → List String → List String
error_if b error errs = if b then error ∷ errs else errs

-- The fields of the control plane's configuration that `Validate` reads, and the intervals of its loops.
pub record ControlPlane : Type 0 where
  pub dsn : String
  pub hmac_secret : String
  pub port : ℤ
  pub argon_memory : ℕ
  pub argon_iterations : ℕ
  pub heartbeat_ttl_sec : ℤ
  pub tick_interval_sec : ℤ
  pub reaper_interval_sec : ℤ

unfoldable pub validate_control_plane : ControlPlane → List String
validate_control_plane cfg = error_if (str_eq cfg.dsn "") "database.dsn" (
    error_if (str_eq cfg.hmac_secret "") "security.hmac_secret" (
      error_if (leb_ℤ cfg.port (pos 0) || ltb_ℤ (pos 65535) cfg.port) "server.port" (
        error_if (ltb cfg.argon_memory 8192) "security.argon_memory" (
          error_if (ltb cfg.argon_iterations 1) "security.argon_iterations"
            (error_if (ltb_ℤ cfg.heartbeat_ttl_sec (pos 10)) "scheduler.heartbeat_ttl_sec" [])))))

-- `time.NewTicker` panics on an interval that is not positive: what `Scheduler.Start` does with its own.
pub data Started : Type 0 where
  ticking crashed : Started

unfoldable pub start_ticker : ℤ → Started
start_ticker interval = if leb_ℤ interval (pos 0) then crashed else ticking

-- The fields of the worker's configuration that `Validate` reads.
pub record GridWorker : Type 0 where
  pub url : String
  pub api_key : String
  pub hmac_secret : String
  pub mode : String
  pub log_format : String

unfoldable pub validate_grid_worker : GridWorker → List String
validate_grid_worker cfg = error_if (str_eq cfg.url "") "server.url" (
    error_if (str_eq cfg.api_key "") "server.api_key" (
      error_if (str_eq cfg.hmac_secret "") "security.hmac_secret" (
        error_if (ltb (len cfg.hmac_secret) 32) "security.hmac_secret length" (
          error_if
            (not (str_eq cfg.mode "auto")
              && not (str_eq cfg.mode "manual")
              && not (str_eq cfg.mode "paused"))
            "policy.mode"
            (error_if (not (str_eq cfg.log_format "json") && not (str_eq cfg.log_format "text"))
              "logging.format" [])))))
