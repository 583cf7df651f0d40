-- ===== src/Queue/Types.antt =====
-- internal/queue/queue.go, internal/proto/types.go: the state of the queue.
-- Times and durations are natural numbers; a duration of 0 stands for every duration that is not
-- positive. A Go map is a list in one of the orders in which a `range` may visit it.
use piper.Prelude.{ℕ, String, Bool, true, false, Option, List}
use piper.Pipeline.{Step, Pipeline}

pub data TaskStatus : Type 0 where
  pending ready running retrying recovering done failed skipped canceled : TaskStatus

-- taskDone, taskFailed, taskSkipped, taskCanceled: the four states that no code leaves.
abbrev pub is_terminal : TaskStatus → Bool
is_terminal TaskStatus.done = true
is_terminal TaskStatus.failed = true
is_terminal TaskStatus.skipped = true
is_terminal TaskStatus.canceled = true
is_terminal _ = false

-- proto.Task, less what the queue only carries: the JSON copies of the step and of the pipeline, the
-- directories, the variables and the parameters.
pub record Task : Type 0 where
  pub project_id : String
  pub id : String
  pub run_id : String
  pub step_name : String
  pub created_at : ℕ
  pub runtime_id : String
  pub attempt : ℕ
  pub env : List String
  pub storage_url : String
  pub storage_token : String
  pub deadline : Option ℕ

-- `attempt` is 0 where it is missing. It is a natural number here, as are the attempts of an entry:
-- the machine takes no result with a negative attempt, which `judge_attempts` speaks of.
pub record TaskResult : Type 0 where
  pub task_id : String
  pub runtime_id : String
  pub status : String
  pub error : String
  pub started_at : ℕ
  pub ended_at : ℕ
  pub attempt : ℕ

-- `timer` is the identity of the *time.Timer that the entry holds.
pub record TaskEntry : Type 0 where
  pub task : Task
  pub step : Step
  pub status : TaskStatus
  pub attempts : ℕ
  pub max_attempts : ℕ
  pub assigned_runtime_id : String
  pub started_at : Option ℕ
  pub lease_at : Option ℕ
  pub deadline : Option ℕ
  pub timer : Option ℕ

-- `tasks` is keyed by the step's name.
pub record RunEntry : Type 0 where
  pub project_id : String
  pub run_id : String
  pub pl : Pipeline
  pub tasks : List TaskEntry
  pub added_at : ℕ

-- pkg/pipeline/run: the terminal statuses of a run.
pub data RunStatus : Type 0 where
  success failed canceled : RunStatus

-- run.Step, a row of the table of steps.
pub record StepRow : Type 0 where
  pub project_id : String
  pub run_id : String
  pub step_name : String
  pub status : TaskStatus
  pub started_at : Option ℕ
  pub ended_at : Option ℕ
  pub attempts : ℕ
  pub error : String

-- The structured events, one constructor for each type, with the fields that identify it.
pub data Event : Type 0 where
  step_ready step_recovering step_recovered : (run_id step : String) → Event
  step_running step_done : (run_id step : String) → (attempts : ℕ) → Event
  step_reported : (run_id step status : String) → Event
  step_failed : (run_id step : String) → (attempts : ℕ) → (error : String) → Event
  step_skipped : (run_id step failed_dep : String) → Event
  run_completed run_expired run_canceled : (run_id : String) → RunStatus → Event
  run_cancel_remote_failed : (run_id : String) → Event

-- pendingWrite. A `finalize` names the cell of its local variable `applied`.
pub data Write : Type 0 where
  upsert : StepRow → Write
  finalize : (applied : ℕ) → (project_id run_id : String) → RunStatus → (at : ℕ) → Write

-- What a deferred effect does: an event, or a call of OnRunOutcome or OnRunSuccess.
pub data Action : Type 0 where
  publish : (project_id : String) → Event → Action
  on_outcome : (project_id run_id : String) → RunStatus → Pipeline → Action
  on_success : (project_id run_id : String) → Pipeline → Action

-- An effect runs always, or only if the write that owns the cell changed its row.
pub data Effect : Type 0 where
  always : Action → Effect
  if_applied : (applied : ℕ) → Action → Effect

-- Calls of the backend, and the events published at once, while the lock is held.
pub data Call : Type 0 where
  release_task release_run : String → Call
  emitted : (project_id : String) → Event → Call

-- The four callbacks that time.AfterFunc arms, with what they capture.
pub data TimerKind : Type 0 where
  timeout recovery_grace requeue retry : TimerKind

pub record Timer : Type 0 where
  pub id : ℕ
  pub kind : TimerKind
  pub run_id : String
  pub step_name : String
  pub at : ℕ

-- pipelinedispatch.ExecutionBackend: which of its optional interfaces the backend implements, and
-- what OwnerForTask answers.
pub record Backend : Type 0 where
  pub task_owner : Bool
  pub run_owner : Bool
  pub cancelable : Bool
  pub owner_for_task : String → String

-- `armed` holds the timers that have not fired, `firing` the callbacks that were started and whose
-- section is still to come, and `dispatching` the copies of the tasks that dispatch goroutines hold.
-- `finishing` counts the callbacks and goroutines that have only their flush and their Done left.
pub record Queue : Type 0 where
  pub runs : List RunEntry
  pub backend : Option Backend
  pub shutdown : Bool
  pub max_attempts : ℕ
  pub retry_delay : ℕ
  pub recovery_grace : ℕ
  pub storage_url : String
  pub storage_token : String
  pub has_on_run_success : Bool
  pub has_on_run_outcome : Bool
  pub pending_writes : List Write
  pub pending_effects : List Effect
  pub wg : ℕ
  pub next_id : ℕ
  pub armed : List Timer
  pub firing : List Timer
  pub dispatching : List Task
  pub finishing : ℕ
  pub calls : List Call
