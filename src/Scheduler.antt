-- ===== src/Scheduler.antt =====
-- control-plane/internal/scheduler: the scheduling round and the reaping round as functions of the
-- tables, and the pure helpers beside them.
pub mod Tick
pub mod Window
pub mod Matcher
pub mod Reaper
