-- ===== src/Store.antt =====
-- control-plane/internal/store/postgres: each query as a function of the rows of its table. The
-- database is not part of the repository: whether it fails a statement is the first argument of each
-- function, and a statement that fails changes no row.
pub mod Tasks
pub mod Workers
pub mod Outputs
pub mod Leaderboard
pub mod Orgs
pub mod ApiKeys
pub mod Db
