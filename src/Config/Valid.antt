-- ===== src/Config/Valid.antt =====
-- control-plane/internal/config/config.go and grid-worker/internal/config/config.go: the configurations with no error.
use Prim.Native.String.{len}
use grid_token_util.Prelude.{◌≤◌, ◌≡◌, ◌≢◌, ◌⊎◌, ◌↔◌, String, [], str_eq_iff, arith, refl}
use grid_token_util.Prelude.Int.{ℤ, pos, ◌≤ℤ◌}
use grid_token_util.Config.{
  ControlPlane, validate_control_plane, crashed, start_ticker, GridWorker, validate_grid_worker,
}

pub record IsValid (cfg : ControlPlane) : Type 0 where
  pub database : cfg.dsn ≢ ""
  pub secret : cfg.hmac_secret ≢ ""
  pub port : (pos 1 ≤ℤ cfg.port) × (cfg.port ≤ℤ pos 65535)
  pub memory : 8192 ≤ cfg.argon_memory
  pub iterations : 1 ≤ cfg.argon_iterations
  pub ttl : pos 10 ≤ℤ cfg.heartbeat_ttl_sec

-- The control plane starts with a configuration exactly where the database and the secret are named, the port is from 1 to 65535,
-- a hash takes at least 8192 KiB and one round, and a worker is missed only after ten seconds or more.
pub validate_control_plane-IsValid :
    (cfg : ControlPlane) → (validate_control_plane cfg ≡ []) ↔ IsValid cfg
unfolding validate_control_plane
validate_control_plane-IsValid cfg =
    ground (arith, str_eq_iff cfg.dsn "", str_eq_iff cfg.hmac_secret "")

empty_len : (s : String) → s ≡ "" → len s ≡ 0
empty_len s e = rw e refl

pub record IsUsable (cfg : GridWorker) : Type 0 where
  pub server : cfg.url ≢ ""
  pub key : cfg.api_key ≢ ""
  pub secret : 32 ≤ len cfg.hmac_secret
  pub mode : (cfg.mode ≡ "auto") ⊎ (cfg.mode ≡ "manual") ⊎ (cfg.mode ≡ "paused")
  pub log_format : (cfg.log_format ≡ "json") ⊎ (cfg.log_format ≡ "text")

-- The worker starts with a configuration exactly where it names the server and a key, its secret has at least 32 characters, and the
-- policy's mode and the format of the log are ones that it knows: a secret of that length is not empty, so that the
-- separate test for an empty one only adds a second error.
pub validate_grid_worker-IsUsable :
    (cfg : GridWorker) → (validate_grid_worker cfg ≡ []) ↔ IsUsable cfg
unfolding validate_grid_worker
validate_grid_worker-IsUsable cfg = ground (
  arith,
  str_eq_iff cfg.url "",
  str_eq_iff cfg.api_key "",
  str_eq_iff cfg.hmac_secret "",
  empty_len cfg.hmac_secret,
  str_eq_iff cfg.mode "auto",
  str_eq_iff cfg.mode "manual",
  str_eq_iff cfg.mode "paused",
  str_eq_iff cfg.log_format "json",
  str_eq_iff cfg.log_format "text",
)

-- The interval of the scheduler is not looked at: a configuration without an error stays so with any interval, and with one that is
-- not positive the scheduler's loop crashes.
pub validate-interval :
    (cfg : ControlPlane) (n : ℤ)
    → validate_control_plane cfg ≡ []
    → n ≤ℤ pos 0
    → (validate_control_plane (record cfg { tick_interval_sec = n }) ≡ [])
      × (start_ticker n ≡ crashed)
unfolding validate_control_plane start_ticker
validate-interval cfg n h le = ground (arith, h, le)
