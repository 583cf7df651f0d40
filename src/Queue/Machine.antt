-- ===== src/Queue/Machine.antt =====
-- internal/queue/queue.go: the queue as a machine. Each input is one critical section of q.mu, or
-- one action of the Go runtime on a timer; any sequence of inputs is a possible interleaving.
use piper.Prelude.{
  ℕ, String, Bool, Option, none, some, List, [], ◌∷◌, str_eq, ◌==◌, ◌&&◌, if◌then◌else◌, ltb,
}
use piper.Pipeline.{Step}
use piper.Queue.Types.{Queue, Task, TaskResult, Timer, Backend, Write, Effect}
use piper.Queue.Complete.{complete}
use piper.Queue.Callbacks.{
  start_callback, fire, end_callback, DispatchOutcome, dispatch_returned, end_dispatch, finish,
}
use piper.Queue.Submit.{Submission, RecoveredStep, add_with_env, recover_with_env}
use piper.Queue.Sweep.{cancel, renew_leases, cleanup}

-- NewQueue
unfoldable pub new_queue : Queue
new_queue = record {
  runs = [];
  backend = none;
  shutdown = Bool.false;
  max_attempts = 1;
  retry_delay = 0;
  recovery_grace = 0;
  storage_url = "";
  storage_token = "";
  has_on_run_success = Bool.false;
  has_on_run_outcome = Bool.false;
  pending_writes = [];
  pending_effects = [];
  wg = 0;
  next_id = 0;
  armed = [];
  firing = [];
  dispatching = [];
  finishing = 0;
  calls = [];
}

-- SetRetryPolicy
unfoldable pub set_retry_policy : ℕ → ℕ → Queue → Queue
set_retry_policy max_attempts retry_delay q = record q {
  max_attempts = if ltb max_attempts 1 then 1 else max_attempts;
  retry_delay = retry_delay;
}

unfoldable pub set_backend : Backend → Queue → Queue
set_backend b q = record q { backend = some b }

unfoldable pub set_storage_config : String → String → Queue → Queue
set_storage_config url token q = record q { storage_url = url; storage_token = token }

unfoldable pub set_recovery_grace_period : ℕ → Queue → Queue
set_recovery_grace_period d q = record q { recovery_grace = d }

-- takePendingLocked
unfoldable pub take_pending : Queue → (List Write × List Effect) × Queue
take_pending q =
    ((q.pending_writes, q.pending_effects), record q { pending_writes = []; pending_effects = [] })

unfoldable pub find_timer : ℕ → List Timer → Option Timer
find_timer id [] = none
find_timer id (t ∷ ts) = if t.id == id then some t else find_timer id ts

unfoldable pub find_dispatch : String → ℕ → List Task → Option Task
find_dispatch id attempt [] = none
find_dispatch id attempt (t ∷ ts) =
    if str_eq t.id id && t.attempt == attempt then some t else find_dispatch id attempt ts

-- `timer_due` is the runtime starting a callback, `callback` the callback's section, `dispatched` what
-- a dispatch goroutine does after its call, and `finished` the Done of one of them, after its flush.
pub data Input : Type 0 where
  set_policy : (max_attempts retry_delay : ℕ) → Input
  set_executor : Backend → Input
  set_storage : (url token : String) → Input
  set_grace : ℕ → Input
  shut_down : Input
  add : (now : ℕ) → (Step → Bool) → Submission → Input
  recover : (now : ℕ) → Submission → List RecoveredStep → Input
  report : (now : ℕ) → TaskResult → Input
  timer_due : (id : ℕ) → Input
  callback : (now id : ℕ) → Input
  dispatched : (now : ℕ) → (task_id : String) → (attempt : ℕ) → DispatchOutcome → Input
  cancel_run : (now : ℕ) → (project_id run_id : String) → Input
  renew : (now : ℕ) → (runtime_id : String) → List String → Input
  clean : (now ttl : ℕ) → Input
  flush finished : Input

unfoldable pub step : Input → Queue → Queue
step (set_policy m d) q = set_retry_policy m d q
step (set_executor b) q = set_backend b q
step (set_storage u t) q = set_storage_config u t q
step (set_grace d) q = set_recovery_grace_period d q
step shut_down q = record q { shutdown = Bool.true }
step (add now marshals sub) q = add_with_env now marshals sub q
step (recover now sub steps) q = recover_with_env now sub steps q
step (report now result) q = (complete now result q).1
step (timer_due id) q = elim (find_timer id q.armed) [ none ↦ q | some t ↦ start_callback t q ]
step (callback now id) q = elim (find_timer id q.firing) [
  | none ↦ q
  | some t ↦ end_callback t (fire now t q)
]
step (dispatched now task_id attempt outcome) q =
    elim (find_dispatch task_id attempt q.dispatching) [
      | none ↦ q
      | some t ↦ end_dispatch t (dispatch_returned now t outcome q)
    ]
step (cancel_run now project_id run_id) q = cancel now project_id run_id q
step (renew now runtime_id ids) q = renew_leases now runtime_id ids q
step (clean now ttl) q = cleanup now ttl q
step flush q = (take_pending q).1
step finished q = finish q

unfoldable pub run : List Input → Queue → Queue
run [] q = q
run (i ∷ is) q = run is (step i q)
