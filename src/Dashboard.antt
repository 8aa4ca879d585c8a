-- ===== src/Dashboard.antt =====
-- control-plane/internal/dashboard: the live view of an organisation.
pub mod Hub
pub mod Projector
pub mod Gather
pub mod Snapshot
