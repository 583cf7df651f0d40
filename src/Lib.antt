-- ===== src/Lib.antt =====
-- Piper runs pipelines of machine-learning steps on workers. This library models the part of the
-- server that decides what runs when; the theorems about it are listed at the end.
--
-- The parts, and how they interact. A pipeline definition (pkg/pipeline, pkg/manifest) is merged with
-- its defaults and handed to the task queue (internal/queue/queue.go), which keeps one entry for each
-- step. The queue starts a step when its dependencies are done, hands a copy of its task to an
-- execution backend, and hears of the step through reports of the workers, renewed leases, and its
-- own timers for timeouts, retries, busy workers and recovery. What is to be written and published is
-- collected under the queue's lock and carried out after it, against the tables of runs and steps
-- (internal/store/sqlite). Events for external systems go through a table of their own, the outbox
-- (internal/store/sqlite/integration_outbox.go), which a dispatcher polls (pkg/integration/outbox).
-- A backend for the server's own host runs its tasks in a direct runtime
-- (internal/directruntime/runtime.go), which bounds how many run at a time.
-- Reports of a notebook's runtime go through a status sink (pkg/notebook/status.go) to the tables of
-- notebooks and of the history of their runs.
-- Alert rules (internal/alerting/engine.go) are matched against events and fire by a claim in their
-- table.
-- Schedules (internal/runlifecycle/schedule.go) start runs at the ticks that they claim in their table.
-- Apart from these, the tunnel to member servers hands the frames of a stream from its receive loop to
-- the stream's consumer by a queue (internal/membertunnel/framequeue.go).
--
-- The files.
--   Prelude: Boolean tests, lists, predicates and signed integers over the native numbers.
--   Pipeline: the records of pkg/pipeline/spec.go and pkg/manifest/driver.go.
--     Pipeline/Defaults: ApplyDefaults and the merges of pkg/pipeline/spec.go; Merge has their laws.
--     Pipeline/Dag: topoSort, BuildDAG and Runnable of pkg/pipeline/dag.go. Names, Counts, Kahn,
--     Order, Correct and Decides have the proofs, from sets of names up to the order itself.
--     Pipeline/Validate: Validate of pkg/pipeline/spec.go, with ValidateTypeMeta of
--     pkg/manifest/decode.go; Paths is about its two path rules, Sound about accepted pipelines.
--   Queue: internal/queue/queue.go.
--     Types: Queue, runEntry, taskEntry, the deferred writes and effects, the timers.
--     TaskId: MakeTaskID, SplitTaskID. Timers: appendWrite, appendEffect, emit, stopEntryTimerLocked,
--     time.AfterFunc, transitionTaskLocked. Tasks: the maps, doneNames, allTerminal, depsAllDone.
--     Dispatch: promoteReady, startTaskLocked, dispatchIfNeeded. Finish: failOrRetryLocked,
--     scheduleRetryLocked, skipDownstream, finalizeRunLocked. Complete: completeLocked. Callbacks: the
--     four timer callbacks, requeueBusyLocked and the dispatch goroutine. Submit: addWithEnvLocked,
--     recoverWithEnvLocked. Sweep: Cancel, RenewLeases, cleanupLocked, IsTracking, Stats. Machine: each
--     critical section as an input, and runs of them. Flush: flushPending, persistWithRetry, and the
--     statements FinalizeStatusCAS and Upsert of internal/store/sqlite/run.go and step.go.
--     Restart: the rows that RecoverInterruptedRuns of internal/runlifecycle/recovery.go recovers.
--     The proofs are in Balance, Frame, Sound, Downstream, Promotion, Flush/Once, Reports, Expiry,
--     Shutdown, Recovery, Restart, Races, Duplicates and Cancellation, by what they show.
--   Outbox: the table's statements; Outbox/Dispatcher and Outbox/Backoff: the dispatcher. The proofs are
--     in Leases, Order, Progress, Batch, Settled, Final and Backoff.
--   Tunnel/FrameQueue: internal/membertunnel/framequeue.go; Fifo relates it to an abstract queue, Wakes
--     is about its wake-ups.
--   Direct: internal/directruntime/runtime.go as a machine; Entries is about its map, Slots about its
--     count of slots, Cancel about cancellations.
--   Schedules: the statements of internal/store/sqlite/schedule.go. Firing: ScheduleFired of
--     internal/runlifecycle/schedule.go, as a machine of overlapping callbacks; Backfill:
--     BackfillSchedule. The proofs are in Rows, Views, Kinds, Claims, Ticks and OneShot.
--   Notebooks: the statements of internal/store/sqlite/notebook.go. Sink: StatusSink of
--     pkg/notebook/status.go, as a machine of overlapping reports; History and Late have the proofs.
--   Alerting: evaluate of internal/alerting/engine.go with the statements of
--     internal/store/sqlite/alert_rule.go; the proofs are in Rules, Claims and Cooldown.
--   Tests: the theorems at concrete inputs.
--
-- How the code is read. Every operation takes the state and returns the new one; an operation that
-- takes the time gets it as an argument. A critical section of the queue's lock is one input of the
-- machine, and so are the runtime's steps on timers, so a list of inputs is an interleaving; a proof
-- about all lists is a proof about all interleavings. A Go map is a list in the order in which the
-- range visits it, which is any order. Entries are looked up by run and step instead of by pointer: a
-- run leaves the map only when its entries are terminal, and callbacks on those do nothing.
-- A run id is taken to be submitted once: a second submission would replace the entries that the
-- callbacks of the first still point to, which the model does not tell apart.
-- Timers are identities in a list of armed or of firing ones; a timer that fires moves between the
-- two, so a stop that comes too late is modelled. An error is a value.
-- The other parts are read in the same way, each with its own machine: the frame queue's critical
-- sections, sends and receives; the direct runtime's critical sections, with its dispatches and
-- observers as lists of those that run; and the callbacks of schedules and the reports of notebooks,
-- each in two sections, between which the others may run. A statement on a row that its primary key
-- names changes the first row with that key. A text is a list of characters, and the rules on paths
-- and names are functions on them.
-- A statement of the outbox is one step; ClaimBatch is one where nothing comes between its SELECT and
-- its UPDATEs, which are statements by themselves too.
--
-- Bounds and fuel. Times, durations, attempts and counts are natural numbers, and what Go treats as
-- not positive is 0; attempts are far below the bounds of int, and not negative but for the test of
-- a report's attempt, which is on signed integers. The cooldown of an alert rule wraps as an int64.
-- A duration in the backoff below 2^62 nanoseconds does not overflow. skipDownstream recurses on
-- fuel of one more than the number of entries, which is enough since each call skips an entry;
-- topoSort's loop has fuel for each step and each dependency and one more, which is enough since a
-- name is queued at most once for each. The loop of BackfillSchedule recurses on the 1000 runs that
-- the code allows.
--
-- Parameters: the backend's answers, the handles that a driver returns, json.Marshal, the
-- environment of each step, the random source of the backoff, the handler of outbox events, the
-- parsers of cron expressions and of text templates, what an alert rule matches, the ticks for
-- which a run can be started, new identifiers, and whether a statement's try succeeds.
--
-- Not modelled: logging, the wait in Close, the parsing of definitions, the queries that only read,
-- the Postgres variants, and the parts of the server outside the files above: the alarms of
-- schedules, the conditions of alert rules, the execution of notebooks, serving, access control,
-- the tunnel apart from its frame queue, drivers, artifact stores, HTTP handlers, the user
-- interface and generated code. They are mostly calls of external services.
pub mod Prelude
pub mod Pipeline
pub mod Outbox
pub mod Queue
pub mod Tunnel
pub mod Direct
pub mod Schedules
pub mod Notebooks
pub mod Alerting
mod Tests
