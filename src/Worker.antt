-- ===== src/Worker.antt =====
-- grid-worker: the daemon that runs on a developer's machine.
pub mod Task
pub mod Lifecycle
pub mod Approval
pub mod Policy
pub mod Daemon
pub mod Client
pub mod Reporter
pub mod Heartbeat
pub mod Monitor
pub mod Executor
pub mod Paths
pub mod Scanner
pub mod Control
pub mod Preflight
pub mod Workspace
pub mod Commands
