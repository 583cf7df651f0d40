-- ===== src/Queue.antt =====
-- internal/queue/queue.go: the DAG-aware task queue. One module for each group of its functions.
pub mod Types
pub mod TaskId
pub mod Timers
pub mod Tasks
pub mod Dispatch
pub mod Finish
pub mod Complete
pub mod Callbacks
pub mod Submit
pub mod Sweep
pub mod Machine
pub mod Flush
pub mod Reports
pub mod Expiry
pub mod Shutdown
pub mod Recovery
pub mod Restart
pub mod Races
pub mod Duplicates
pub mod Cancellation
pub mod Frame
pub mod Downstream
pub mod Promotion
pub mod Sound
pub mod Balance
