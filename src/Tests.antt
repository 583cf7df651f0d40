-- ===== src/Tests.antt =====
-- internal/queue/queue.go: the theorems at concrete inputs. The pipeline has a step `prepare`, a step
-- `train` that depends on it and a step `publish` that depends on `train`.
mod Direct
mod Notebook
mod Alert
mod Schedule
mod Stream
mod Table
mod Definition
mod Storage
use piper.Queue.Restart.{restarted, failed_step_restarts, recover_rows}
use piper.Queue.Cancellation.{complete-cancel}
use piper.Queue.Complete.{int_attempt, judge_attempts, ignored}
use piper.Queue.Downstream.Closure.{skip_downstream_closed}
use piper.Queue.Expiry.{FinalizedIn, cleanup_complete}
use piper.Queue.Shutdown.{callbacks_after_shutdown}
use piper.Queue.Races.{stale_busy_requeues}
use piper.Queue.Recovery.{recover_outcome}
use piper.Pipeline.Defaults.{apply_defaults}
use piper.Queue.Sweep.{cancel, cleanup, run_expired_locked}
use piper.Queue.Callbacks.{
  retry_fired, is_running, requeued_dispatch_fired, busy, recovery_grace_fired, dispatch_returned,
  timeout_fired, find_entry,
}
use piper.Queue.Flush.Once.{flush_writes-wins, persist_with_retry_iff, SucceedsAt, open_rows, wins}
use piper.Queue.Flush.{fails, succeeds, max_tries, flush_writes, Verdict, Db, persist_with_retry}
use piper.Queue.TaskId.{
  make_task_id-split_task_id, has_colon, split_task_id-make_task_id, make_task_id, split_task_id,
}
use piper.Queue.Promotion.{promote_ready_exact, Promoted}
use piper.Queue.Duplicates.{Waits, complete-twice}
use piper.Queue.Reports.{FromAttempt, judge_iff, FromOwner, complete_unapplied}
use piper.Queue.Balance.Inputs.{run-IsBalanced}
use piper.Queue.Finish.{skip_downstream}
use piper.Queue.Dispatch.{promote_ready}
use piper.Queue.Sound.Reachable.{start, next, Reachable-SoundQueue}
use piper.Pipeline.{Run, Step, DriverSpec, Pipeline}
use piper.Queue.Sound.Runs.{SoundQueue}
use piper.Queue.Tasks.{deps_all_done, run_outcome, find_run, done_names, find_task}
use piper.Queue.Downstream.{OnlySkips, FreeOf}
use piper.Queue.Complete.{
  wrong_runtime, rejected, backend_owner, owner_of, complete_judged, result_attempt, complete_task,
  complete_run, complete_split, applied, judge, complete,
}
use piper.Queue.Balance.{IsBalanced}
use piper.Queue.Submit.{
  find_recovered, recover_entry, recover_steps, RecoveredStep, new_task, new_entry, Submission,
  new_run,
}
use piper.Queue.Types.{
  StepRow, RunStatus, finalize, Task, Write, is_terminal, Backend, TaskEntry, TaskStatus,
  TaskResult, RunEntry, Queue,
}
use piper.Queue.Machine.{new_queue, run, step, set_executor, add, set_policy}
use piper.Prelude.{
  negsuc, pos, keep, not, pos, not, keep, ◌≤◌, ◌+◌, ◌-◌, ◌<◌, ◌==◌, length, All, if◌then◌else◌, suc,
  inr, ◌↔◌, arith, ℕ, ◌≡◌, some, none, List, [], ◌∷◌, true, false, refl,
}

abbrev no_driver : DriverSpec
no_driver = record { runtime = ""; k8s = none; docker = none; process = none }

abbrev no_run : Run
no_run = record { path = ""; dir = ""; deps = []; prepare = []; command = "true" ∷ [] }

abbrev prepare : Step
prepare = record {
  name = "prepare";
  timeout = 60;
  run = no_run;
  driver = no_driver;
  inputs = [];
  outputs = [];
  depends_on = [];
}

abbrev train : Step
train = record {
  name = "train";
  timeout = 0;
  run = no_run;
  driver = no_driver;
  inputs = [];
  outputs = [];
  depends_on = "prepare" ∷ [];
}

abbrev publish_step : Step
publish_step = record {
  name = "publish";
  timeout = 0;
  run = no_run;
  driver = no_driver;
  inputs = [];
  outputs = [];
  depends_on = "train" ∷ [];
}

abbrev training : Pipeline
training = record {
  api_version = "";
  kind = "";
  on_success = none;
  on_failure = none;
  name = "training";
  defaults = none;
  steps = prepare ∷ train ∷ publish_step ∷ [];
}

abbrev submission : Submission
submission = record { project_id = "p"; pl = training; run_id = "r1"; env_by_step = λ s. [] }

abbrev worker : Backend
worker = record {
  task_owner = true;
  run_owner = true;
  cancelable = true;
  owner_for_task = λ id. "w1";
}

abbrev with_worker : Queue
with_worker = record new_queue { backend = some worker; max_attempts = 2 }

-- An entry of the run, with this status and this number of attempts.
abbrev entry : Step → TaskStatus → ℕ → TaskEntry
entry s status attempts = record (new_entry 0 submission s with_worker) {
  status = status;
  attempts = attempts;
  lease_at = some 3;
}

abbrev tracked : TaskEntry → TaskEntry → RunEntry
tracked a b = new_run 0 submission (a ∷ b ∷ entry publish_step TaskStatus.pending 0 ∷ [])

abbrev queue_with : RunEntry → Queue
queue_with r = record with_worker { runs = r ∷ [] }

abbrev result : TaskResult
result = record {
  task_id = "r1:prepare";
  runtime_id = "w1";
  status = "failed";
  error = "exit status 1";
  started_at = 2;
  ended_at = 5;
  attempt = 1;
}

-- A submission to a queue with a worker, after the policy of two attempts is set.
abbrev submitted : Queue
submitted =
    run (set_policy 2 10 ∷ set_executor worker ∷ add 1 (λ s. true) submission ∷ []) new_queue

Reachable-SoundQueue_example : SoundQueue (
    step
      (add 1 (λ s. true) submission)
      (step (set_executor worker) (step (set_policy 2 10) new_queue)))
Reachable-SoundQueue_example = Reachable-SoundQueue (
    next (add 1 (λ s. true) submission)
      (next (set_executor worker) (next (set_policy 2 10) start tt) tt) tt)

run-IsBalanced_example : IsBalanced submitted
run-IsBalanced_example =
    run-IsBalanced (set_policy 2 10 ∷ set_executor worker ∷ add 1 (λ s. true) submission ∷ [])
      new_queue (unfold new_queue in refl)

-- `prepare` failed for good while `train` and `publish` wait.
abbrev failing : List TaskEntry
failing =
    entry prepare TaskStatus.failed 1
    ∷ entry train TaskStatus.pending 0
    ∷ entry publish_step TaskStatus.pending 0
    ∷ []

skip_downstream_closed_example :
    FreeOf "prepare"
      (skip_downstream 4 (new_run 0 submission failing) "prepare" (failing, with_worker)).0
    × OnlySkips "prepare" failing
        (skip_downstream 4 (new_run 0 submission failing) "prepare" (failing, with_worker)).0
skip_downstream_closed_example =
    skip_downstream_closed (new_run 0 submission failing) "prepare" failing with_worker

abbrev half_done : RunEntry
half_done = tracked (entry prepare TaskStatus.done 1) (entry train TaskStatus.pending 0)

promote_ready_exact_example :
    (e' : TaskEntry) × (find_task "train" (promote_ready 7 half_done with_worker).0.tasks ≡ some e')
    × Promoted (done_names half_done.tasks) with_worker (entry train TaskStatus.pending 0) e'
unfolding new_entry new_run find_task
promote_ready_exact_example =
    promote_ready_exact 7 half_done with_worker "train" (entry train TaskStatus.pending 0) refl

-- An entry that has made no attempt takes a result with a negative number.
judge_iff_example : (judge_attempts "w1" "w1" TaskStatus.ready (pos 0) (negsuc 0) ≡ applied) ↔ (
    (is_terminal TaskStatus.ready ≡ false)
    × FromAttempt (pos 0) (int_attempt (negsuc 0))
    × FromOwner "w1" "w1")
judge_iff_example = judge_iff "w1" "w1" TaskStatus.ready (pos 0) (negsuc 0)

-- A report from another runtime.
abbrev foreign : TaskResult
foreign = record result { runtime_id = "w2" }

abbrev preparing : Queue
preparing =
    queue_with (tracked (entry prepare TaskStatus.running 1) (entry train TaskStatus.pending 0))

foreign_rejected : (complete 6 foreign preparing).0 ≡ rejected wrong_runtime
unfolding complete complete_split complete_run complete_task complete_judged judge judge_attempts
    owner_of backend_owner split_task_id find_run find_task new_run new_entry new_task
foreign_rejected = refl

complete_unapplied_example : (complete 6 foreign preparing).1 ≡ preparing
complete_unapplied_example =
    complete_unapplied 6 foreign preparing (rw foreign_rejected (λ h. ground (arith, h)))

-- The policy has a delay.
abbrev patient : Queue
patient = record preparing { retry_delay = 10 }

complete-twice_example :
    ((complete 6 result patient).0 ≡ applied)
    × Waits "r1" "prepare" 6
        (entry prepare TaskStatus.running 1)
        patient
        (complete 6 result patient).1
    × ((complete 8 result (complete 6 result patient).1).0 ≡ applied)
    × Waits "r1" "prepare" 8
        (entry prepare TaskStatus.running 1)
        patient
        (complete 8 result (complete 6 result patient).1).1
unfolding split_task_id find_entry find_run find_task new_run new_entry new_task result_attempt
    owner_of backend_owner
complete-twice_example =
    complete-twice 6 8 result "r1" "prepare" patient
      (tracked (entry prepare TaskStatus.running 1) (entry train TaskStatus.pending 0))
      (entry prepare TaskStatus.running 1) refl refl refl refl (inr refl) (inr refl) refl
      (omega arith) refl

cleanup_complete_example :
    ((cleanup 100 30 preparing).runs
      ≡ keep (λ r. not (run_expired_locked (100 - 30) r)) preparing.runs)
    × All
        (λ r. FinalizedIn 100 r (cleanup 100 30 preparing).pending_writes)
        (keep (run_expired_locked (100 - 30)) preparing.runs)
cleanup_complete_example = cleanup_complete 100 30 preparing (tt, tt)

-- `prepare` was persisted as done, `train` as started.
abbrev persisted : List RecoveredStep
persisted =
    record { name = "prepare"; done = true; started_at = some 1; attempts = 1 }
    ∷ record { name = "train"; done = false; started_at = some 4; attempts = 1 }
    ∷ []

recover_outcome_example :
    run_outcome
      (recover_steps 9 submission persisted (apply_defaults training).steps [] with_worker).0
    ≡ RunStatus.success
recover_outcome_example = recover_outcome 9 submission persisted with_worker

abbrev down : Queue
down = record preparing { shutdown = true }

-- `prepare` runs, and after the shutdown its timeout is due.
callbacks_after_shutdown_example :
    (timeout_fired 9 half_done (entry prepare TaskStatus.running 1) down ≡ down)
    × (recovery_grace_fired 9 half_done (entry prepare TaskStatus.running 1) down ≡ down)
    × ((requeued_dispatch_fired 9 half_done (entry prepare TaskStatus.running 1) down).dispatching
        ≡ down.dispatching)
    × (length (retry_fired 9 half_done (entry prepare TaskStatus.retrying 1) down).dispatching
        ≡ suc (length down.dispatching))
callbacks_after_shutdown_example =
    callbacks_after_shutdown 9 half_done (entry prepare TaskStatus.running 1)
      (entry prepare TaskStatus.retrying 1) down worker refl refl refl

-- The second attempt of `prepare` runs.
abbrev second_attempt : RunEntry
second_attempt = tracked (entry prepare TaskStatus.running 2) (entry train TaskStatus.pending 0)

-- The copy of the task that the dispatch goroutine of the first attempt holds.
abbrev first_dispatch : Task
first_dispatch = record (new_task 0 submission prepare with_worker) { attempt = 1 }

stale_busy_requeues_example :
    (r' : RunEntry) × (e' : TaskEntry) × (find_entry "r1" "prepare"
        (dispatch_returned 9 first_dispatch busy (queue_with second_attempt))
      ≡ some (r', e'))
    × (e'.status ≡ TaskStatus.ready)
    × (e'.attempts + 1 ≡ 2)
unfolding new_task new_entry new_run find_entry find_run find_task
stale_busy_requeues_example =
    stale_busy_requeues 9 first_dispatch (queue_with second_attempt) second_attempt
      (entry prepare TaskStatus.running 2) refl refl (omega arith)

complete-cancel_example :
    complete 9 result (cancel 8 "p" "r1" preparing) ≡ (ignored, cancel 8 "p" "r1" preparing)
unfolding split_task_id
complete-cancel_example = complete-cancel 8 9 "p" "r1" "prepare" result preparing refl

-- The rows after a crash in which `prepare` had failed and `train` was skipped.
abbrev crashed : List StepRow
crashed =
    record {
      project_id = "p";
      run_id = "r1";
      step_name = "prepare";
      status = TaskStatus.failed;
      started_at = some 2;
      ended_at = some 5;
      attempts = 2;
      error = "exit status 1";
    }
    ∷ record {
      project_id = "p";
      run_id = "r1";
      step_name = "train";
      status = TaskStatus.skipped;
      started_at = none;
      ended_at = none;
      attempts = 0;
      error = "";
    }
    ∷ []

failed_step_restarts_example :
    ((restarted 9 9 submission prepare crashed ("train" ∷ []) with_worker).0.status
      ≡ TaskStatus.running)
    × ((restarted 9 9 submission prepare crashed ("train" ∷ []) with_worker).0.attempts ≡ 1)
    × (length (restarted 9 9 submission prepare crashed ("train" ∷ []) with_worker).1.dispatching
        ≡ suc (length with_worker.dispatching))
failed_step_restarts_example =
    failed_step_restarts 9 9 submission prepare crashed ("train" ∷ []) with_worker worker
      ((λ h. refl), ((λ h. ground (arith, h)), tt)) refl (unfold deps_all_done in refl)
