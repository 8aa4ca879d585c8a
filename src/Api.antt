-- ===== src/Api.antt =====
-- control-plane/internal/api: the handlers as state passing over the tables. A handler stops at the
-- first refusal, and what it has written by then stays written.
pub mod Context
pub mod Tasks
pub mod Outputs
pub mod Workers
pub mod Auth
pub mod Keys
pub mod RateLimit
pub mod Audit
pub mod Routes
pub mod Dashboard
pub mod Points
pub mod Orgs
