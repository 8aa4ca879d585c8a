-- ===== src/Lib.antt =====
-- grid-token-util shares the coding agents of an organisation's machines. A control plane
-- (control-plane) keeps tasks, workers, outputs, points and API keys in Postgres, and heartbeats, counters
-- and a queue in Redis; a daemon on each machine (grid-worker) asks it for work by its heartbeats, runs an
-- agent on the task, and submits what the agent made.
--
-- How the parts interact. A client's request passes the authentication and the rate limit and reaches a
-- handler, which reads and writes the stores. The scheduler's tick claims queued tasks for idle workers in a
-- transaction; a worker's heartbeat then hands it the task. The worker's policy decides whether to execute it;
-- the executor reports its stages as status updates and submits an output, which a reviewer approves or
-- rejects, and the ledger of points follows. The reaper returns the tasks of dead workers to the queue.
--
-- Which file models which part:
-- - Prelude: the shared names and tests, lists as rows of a table, a first row and a sort by an order (ORDER
--   BY, LIMIT 1), integers with 64-bit wrap-around, the result of a store call and the monad of the handlers.
-- - Domain, Clock: the records of control-plane/internal/domain/types.go, and the local time in a zone.
-- - Store: control-plane/internal/store/postgres, a function over the rows for each statement: `create_task` is
--   `CreateTask`, `claim_in_tx` is `ClaimNextTask` inside `WithTx`, and so on.
-- - Brownie: `Award`, `Deduct` and `write` of control-plane/internal/brownie/engine.go.
-- - Scheduler: `tick`, `reap`, `bestWorker`, `IsInWindow` of control-plane/internal/scheduler.
-- - Queue: control-plane/internal/queue/redis_queue.go over an interface for sorted sets.
-- - Security: the keys and, in Secrets, the scanner of control-plane/internal/security.
-- - Api: the handlers and the middleware of control-plane/internal/api, each handler whole, with the stores it
--   calls; `Handler` is a state and an answer or an HTTP error with its status. Its Routes is router.go, its Audit
--   the middleware with the audit log, its Dashboard and Points the remaining readers; its Tasks/Secrets joins the
--   creation of tasks with the scanner.
-- - Worker: grid-worker/internal: the daemon as a machine of events (daemon), its state machine (lifecycle), the
--   policy and the approvals (policy), the client with the heartbeat loop (controlplane), the reporter, the
--   executor with its monitor, the scanner, the two containment tests of paths, the clone and the quota (workspace).
--   Its Control is the socket between the command line and the daemon (control), its Commands the daemon's handlers on
--   it, its Preflight the checks before
--   the daemon is idle (preflight), with `boot` for the start of `run`.
-- - Dashboard: control-plane/internal/dashboard: the hub of the live view as a machine of calls, in which each send
--   of a broadcast is a call of its own, the projector from
--   the Redis stream, the builder of snapshots, and `gather` for goroutines that finish in any order.
-- - Config: the two validations of control-plane/internal/config and grid-worker/internal/config.
-- - Samples: data, and one concrete run for each entry of the list below.
--
-- Conventions. An identifier is the number of its UUID, a time a number of microseconds. A call of the database
-- or of Redis that may fail takes a flag, or an answer that may be missing, from the environment of the
-- operation. The clock, fresh identifiers, the regular expressions, Argon2id, SHA-256, the time zones, Redis'
-- sorted sets and counters are arguments. A request holds what was decoded from it. Loops over rows, workers,
-- tasks and lines are structural recursion; the retries of the reporter recurse on the three attempts that the
-- code allows. Only the loop of a connection of the control socket takes fuel, the number of bytes that the
-- peer sends: a message takes five bytes at least (`serve_enough`).
--
-- Bounds. The score of the matcher wraps at 64 bits. The scores of the queue are rounded to a
-- `float64` at each step, exactly up to 2^53. The line numbers of a patch and the points of the ledger are not wrapped: they stay below 2^63.
--
-- Not modelled: the agents' adapters, git, file systems, the command line, and the wiring of both programs.
-- The methods that snapshot.go calls and the repository lacks are arguments, and so are chi, viper,
-- encoding/json and Redis' streams.
pub mod Prelude
pub mod Domain
pub mod Clock
pub mod Store
pub mod Brownie
pub mod Scheduler
pub mod Api
pub mod Queue
pub mod Security
pub mod Worker
pub mod Dashboard
pub mod Config
pub mod Samples
