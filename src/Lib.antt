-- ===== src/Lib.antt =====
-- The qwen-harness-bridge control plane and plugin: a job is created by its owner, dispatched to a
-- connector, claimed, run under approvals, and ended; every step is a transaction on one database.
--
-- The parts and their files:
-- - JobState: apps/control-plane/src/domain/job-state.ts, the table of allowed transitions
--   (canTransition, assertTransition, TERMINAL_JOB_STATES). JobState/Diagram states it as a relation.
-- - Database: the rows of apps/control-plane/src/db/schema.ts. A table is a list of rows; logs have the
--   newest row first. Database/Tables reads and writes them by key, Database/Clock holds what the
--   server supplies: now(), clock_timestamp() and the generated identifiers.
-- - Repository and its children: apps/control-plane/src/db/job-repository.ts. One file for each method
--   (Create, Transition, Cancel, Claim, Approval, Results, Queries) and one for the helpers that append
--   events and enqueue commands (Commands). A method takes its input, the clock and the fresh identifiers
--   and returns the answer or the error with the database after the call: `transaction` drops the writes
--   of a body that threw. Invariant says what holds between two calls, Progress what one call may change,
--   History what holds after any sequence of calls (Call, serve, run).
-- - Outbox and its children: apps/control-plane/src/connector/outbox.ts, the store of the connectors'
--   messages. Messages, Offers, Claim, Ingest, Approvals and Cancellations hold its helpers; Profile,
--   Admission, Business, Answer and Accept are acceptClientMessage in the order of its statements, and
--   Payloads, Duplicates and Repeats its path for a message that is stored already; Replay and Dispatch
--   are pendingServerMessages, enqueueServer, refreshHealth and dispatchNext, Materialize is
--   materializeServerMessage. Progress says what each of them may change. History lets the store and
--   the repository work on one database in any interleaving of their transactions (Act, commit,
--   commit_all); Laws holds what single operations promise, Laws/Places the meaning of the conditions of
--   dispatchNext on jobs, stated apart from the code's tests.
-- - SessionRegistry: apps/control-plane/src/rtc/session/session-registry.ts, the sessions and the owners
--   of the RTC path, and the close of a session in rtc-session.ts as two steps, its beginning and its
--   callback, between which other calls come. Starts and Closes say what each step does, Consistent that
--   the two maps agree in every reachable state, Laws what follows.
-- - ActionRegistry: packages/harness-plugin/src/runtime/action-registry.ts, the owners and the trusted
--   actions of the plugin, with the signals that have been aborted.
-- - Text and Json: strings as UTF-16 code units, with trim, and jsonb values with the reads of the code.
-- - Prelude: the names that the modules share, results with an error, and lists as tables. Selection says
--   what it is to choose the rows of a table that meet a condition, and Repository/Queries/Sorting that
--   `order_by` sorts them.
--
-- Choices. Identifiers, owners, digests and ciphertexts are numbers, since the code only compares them.
-- Times are milliseconds as natural numbers. A JavaScript number is a natural or some other number. An
-- integer column that overflows and a unique key that is taken are errors, as in PostgreSQL. A call is
-- one step: the row locks that the code takes make the transactions on one job serial, and the one
-- interleaving that a lock does not exclude, an idempotency record committed by another writer between
-- two statements, is the argument `rival` of createIdempotent. The loop over 32 short ids is recursion
-- on the number of tries left, so no fuel is needed. A message of a connector is taken after its schema
-- was checked; the filters of its texts and the digest of its payload are parameters (Filters). What a
-- transaction of the store draws from the database server is its Supply: readings of the clock, in the
-- order in which the code takes them, and identifiers. dispatchNext skips the jobs that others hold
-- locked: which ones is an argument.
--
-- Not modelled: foreign keys and the owners table; the WebSocket gateway, the parse of messages by their
-- schemas, the redaction of a connector's texts by regular expressions, the plugin's store and transport,
-- the timers and output of the RTC path, the HTTP and MCP front ends, which are input and output or parts
-- that this library leaves out.
mod Prelude
pub mod Text
pub mod Json
pub mod JobState
pub mod Database
pub mod Repository
pub mod Outbox
pub mod SessionRegistry
pub mod ActionRegistry
