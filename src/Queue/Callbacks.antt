-- ===== src/Queue/Callbacks.antt =====
-- internal/queue/queue.go: the timer callbacks, the dispatch goroutine, and when they end.
-- A callback holds a pointer to its entry. Here it finds the entry by the ids of its run and its
-- step: a run leaves the map only when its entries are terminal, and on such an entry every
-- callback only clears the timer slot.
use piper.Prelude.{
  ltb, ◌≡◌, arith, ℕ, ◌+◌, ◌-◌, String, Bool, true, false, Option, none, some, List, [], ◌∷◌,
  str_eq, ◌==◌, ◌&&◌, ◌||◌, not, any, if◌then◌else◌,
}
use piper.Queue.Types.{Queue, TaskEntry, TaskStatus, RunEntry, Task, Timer, TimerKind}
use piper.Queue.Timers.{
  release_task_slot, stop_entry_timer, arm_timer, transition_task, is_armed, remove_timer,
}
use piper.Queue.Tasks.{find_task, put_task, find_run, store_run}
use piper.Queue.Dispatch.{dispatch_if_needed}
use piper.Queue.Finish.{fail_or_retry}
use piper.Queue.Complete.{complete}

abbrev pub is_running : TaskStatus → Bool
is_running TaskStatus.running = true
is_running _ = false

abbrev pub is_recovering : TaskStatus → Bool
is_recovering TaskStatus.recovering = true
is_recovering _ = false

abbrev pub is_ready : TaskStatus → Bool
is_ready TaskStatus.ready = true
is_ready _ = false

abbrev pub is_retrying : TaskStatus → Bool
is_retrying TaskStatus.retrying = true
is_retrying _ = false

-- The entry with its run, as a callback sees it.
unfoldable pub find_entry : String → String → Queue → Option (RunEntry × TaskEntry)
find_entry run_id step_name q = elim (find_run run_id q.runs) [
  | none ↦ none
  | some r ↦ elim (find_task step_name r.tasks) [ none ↦ none | some e ↦ some (r, e) ]
]

-- What find_entry finds is a tracked run and an entry of it.
pub find_entry_inv :
    (run_id step_name : String) (q : Queue) {r : RunEntry} {e : TaskEntry}
    → find_entry run_id step_name q ≡ some (r, e)
    → (find_run run_id q.runs ≡ some r) × (find_task step_name r.tasks ≡ some e)
unfolding find_entry
find_entry_inv run_id step_name q {r} {e} p = (ground arith, ground arith)

-- The entry and the queue after a change of the entry alone.
unfoldable pub store_entry : RunEntry → TaskEntry × Queue → Queue
store_entry r s = store_run (record r { tasks = put_task s.0 r.tasks }) s.1

-- timeoutFiredLocked and recoveryGraceFiredLocked, behind their test of the status.
unfoldable pub expire_task : ℕ → String → RunEntry → TaskEntry → Queue → Queue
expire_task now error r e q =
    fail_or_retry now error e.started_at now r (record e { timer = none })
      (release_task_slot e.task.id q)

unfoldable pub timeout_fired : ℕ → RunEntry → TaskEntry → Queue → Queue
timeout_fired now r e q =
    if q.shutdown || not (is_running e.status)
    then q
    else expire_task now "task execution timeout" r e q

unfoldable pub recovery_grace_fired : ℕ → RunEntry → TaskEntry → Queue → Queue
recovery_grace_fired now r e q =
    if q.shutdown || not (is_recovering e.status)
    then q
    else expire_task now "recovery grace period expired without worker reconnect" r e q

unfoldable pub requeued_dispatch_fired : ℕ → RunEntry → TaskEntry → Queue → Queue
requeued_dispatch_fired now r e q =
    if q.shutdown || not (is_ready e.status)
    then store_entry r (record e { timer = none }, q)
    else store_entry r (dispatch_if_needed now (record e { timer = none }) q)

unfoldable pub retry_fired : ℕ → RunEntry → TaskEntry → Queue → Queue
retry_fired now r e q =
    if not (is_retrying e.status)
    then q
    else store_entry r
        (dispatch_if_needed now (transition_task TaskStatus.ready (record e { timer = none })) q)

unfoldable pub run_callback : ℕ → TimerKind → RunEntry → TaskEntry → Queue → Queue
run_callback now TimerKind.timeout r e q = timeout_fired now r e q
run_callback now TimerKind.recovery_grace r e q = recovery_grace_fired now r e q
run_callback now TimerKind.requeue r e q = requeued_dispatch_fired now r e q
run_callback now TimerKind.retry r e q = retry_fired now r e q

-- The runtime starts the callback of an armed timer; from here on Stop returns false.
unfoldable pub start_callback : Timer → Queue → Queue
start_callback t q =
    if is_armed t.id q.armed
    then record q { armed = remove_timer t.id q.armed; firing = t ∷ q.firing }
    else q

unfoldable pub fire : ℕ → Timer → Queue → Queue
fire now t q = elim (find_entry t.run_id t.step_name q) [
  | none ↦ q
  | some (r, e) ↦ run_callback now t.kind r e q
]

-- The callback has left its section.
unfoldable pub end_callback : Timer → Queue → Queue
end_callback t q =
    if is_armed t.id q.firing
    then record q { firing = remove_timer t.id q.firing; finishing = q.finishing + 1 }
    else q

-- requeueBusyLocked; the delay is two seconds.
unfoldable pub requeue_entry : ℕ → TaskEntry → Queue → TaskEntry × Queue
requeue_entry now e q =
    let e1 = transition_task TaskStatus.ready (record e {
      attempts = e.attempts - 1;
      task = record (e.task) { attempt = e.attempts - 1 };
    }) in
    let (e2, q2) =
      stop_entry_timer (record e1 { assigned_runtime_id = ""; started_at = none; lease_at = none })
        q in
    arm_timer TimerKind.requeue e.task.run_id (now + 2) e2 q2

unfoldable pub requeue_busy : ℕ → String → String → Queue → Queue
requeue_busy now run_id step_name q = elim (find_entry run_id step_name q) [
  | none ↦ q
  | some (r, e) ↦ if is_running e.status then store_entry r (requeue_entry now e q) else q
]

-- What became of the call of Dispatch. `withheld`: the entry was canceled before the call. With the
-- error of a refusal comes what the backend that was captured with the task answers to OwnerForTask,
-- or "" if it is no TaskOwner.
pub data DispatchOutcome : Type 0 where
  withheld accepted busy : DispatchOutcome
  refused : (error owner : String) → DispatchOutcome

-- The owner that a refused task is reported for.
unfoldable pub refused_runtime : Task → String → String
refused_runtime task owner = if str_eq owner "" then task.runtime_id else owner

unfoldable pub dispatch_returned : ℕ → Task → DispatchOutcome → Queue → Queue
dispatch_returned now task withheld q = q
dispatch_returned now task accepted q = q
dispatch_returned now task busy q = requeue_busy now task.run_id task.step_name q
dispatch_returned now task (refused error owner) q =
    (complete now
      (record {
        task_id = task.id;
        runtime_id = refused_runtime task owner;
        status = "failed";
        error = error;
        started_at = now;
        ended_at = now;
        attempt = task.attempt;
      })
      q).1

abbrev pub same_dispatch : Task → Task → Bool
same_dispatch a b = str_eq a.id b.id && a.attempt == b.attempt

unfoldable pub remove_dispatch : Task → List Task → List Task
remove_dispatch t [] = []
remove_dispatch t (x ∷ xs) = if same_dispatch x t then xs else x ∷ remove_dispatch t xs

-- The goroutine has left its last section.
unfoldable pub end_dispatch : Task → Queue → Queue
end_dispatch t q =
    if any (λ x. same_dispatch x t) q.dispatching
    then record q { dispatching = remove_dispatch t q.dispatching; finishing = q.finishing + 1 }
    else q

-- The deferred q.wg.Done() of one of those.
unfoldable pub finish : Queue → Queue
finish q = if ltb 0 q.finishing then record q { finishing = q.finishing - 1; wg = q.wg - 1 } else q
