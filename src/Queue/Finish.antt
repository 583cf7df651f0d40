-- ===== src/Queue/Finish.antt =====
-- internal/queue/queue.go: scheduleRetryLocked, failOrRetryLocked, skipDownstream and the
-- finalization of a run.
use piper.Prelude.{
  ℕ, zero, suc, ◌+◌, String, Bool, true, false, Option, none, some, List, [], ◌∷◌, ltb, length, has,
  ◌==◌, ◌&&◌, if◌then◌else◌,
}
use piper.Queue.Types.{
  Queue, TaskEntry, TaskStatus, TimerKind, StepRow, RunEntry, RunStatus, Event, upsert, finalize,
  always, if_applied, publish, on_outcome, on_success, step_failed, step_skipped, run_completed,
}
use piper.Queue.Timers.{
  append_write, append_effect, stop_entry_timer, arm_timer, transition_task, release_run_slot,
}
use piper.Queue.Tasks.{
  key, names, find_task, put_task, delete_run, store_run, all_terminal, run_outcome,
}
use piper.Queue.Dispatch.{dispatch_if_needed}

-- scheduleRetryLocked
unfoldable pub schedule_retry : ℕ → TaskEntry → Queue → TaskEntry × Queue
schedule_retry now e q =
    if q.retry_delay == 0
    then dispatch_if_needed now (record (transition_task TaskStatus.ready e) { timer = none }) q
    else (let (e', q') = stop_entry_timer e q in
        arm_timer TimerKind.retry e.task.run_id (now + q.retry_delay) e' q')

-- The row that a report or an expiry leaves behind.
unfoldable pub ended_row : RunEntry → TaskEntry → TaskStatus → Option ℕ → ℕ → String → StepRow
ended_row r e status started_at ended_at error = record {
  project_id = r.project_id;
  run_id = r.run_id;
  step_name = key e;
  status = status;
  started_at = started_at;
  ended_at = some ended_at;
  attempts = e.attempts;
  error = error;
}

abbrev pub is_open : TaskStatus → Bool
is_open TaskStatus.pending = true
is_open TaskStatus.ready = true
is_open _ = false

unfoldable pub skipped_row : RunEntry → TaskEntry → StepRow
skipped_row r e = record {
  project_id = r.project_id;
  run_id = r.run_id;
  step_name = key e;
  status = TaskStatus.skipped;
  started_at = none;
  ended_at = none;
  attempts = 0;
  error = "";
}

-- One entry skipped for its failed dependency, with its write and its event.
unfoldable pub skip_task :
    RunEntry → String → TaskEntry → List TaskEntry × Queue → List TaskEntry × Queue
skip_task r failed e s = (
  put_task (transition_task TaskStatus.skipped e) s.0,
  append_effect (always (publish r.project_id (step_skipped r.run_id (key e) failed)))
      (append_write (upsert (skipped_row r e)) s.1),
)

-- The loop body of skipDownstream at one key; `recur` is the recursive call.
unfoldable pub skip_visit :
    (String → List TaskEntry × Queue → List TaskEntry × Queue)
    → RunEntry
    → String
    → String
    → List TaskEntry × Queue
    → List TaskEntry × Queue
skip_visit recur r failed name s = elim (find_task name s.0) [
  | none ↦ s
  | some e ↦ elim (is_open e.status && has failed e.step.depends_on) [
    | true ↦ recur (key e) (skip_task r failed e s)
    | false ↦ s
  ]
]

unfoldable pub skip_each :
    (String → List TaskEntry × Queue → List TaskEntry × Queue)
    → RunEntry
    → String
    → List String
    → List TaskEntry × Queue
    → List TaskEntry × Queue
skip_each recur r failed [] s = s
skip_each recur r failed (name ∷ rest) s =
    skip_each recur r failed rest (skip_visit recur r failed name s)

-- skipDownstream, on fuel: each nested call is made for one more entry that was open.
unfoldable pub skip_downstream :
    ℕ → RunEntry → String → List TaskEntry × Queue → List TaskEntry × Queue
skip_downstream zero r failed s = s
skip_downstream (suc fuel) r failed s = skip_each (skip_downstream fuel r) r failed (names s.0) s

-- OnRunSuccess, for a run that succeeded.
unfoldable pub append_success : ℕ → RunEntry → RunStatus → Queue → Queue
append_success cell r RunStatus.success q =
    if q.has_on_run_success
    then append_effect (if_applied cell (on_success r.project_id r.run_id r.pl)) q
    else q
append_success cell r _ q = q

-- finalizeRunLocked. `applied` is a local variable that the write sets and the effects read.
unfoldable pub finalize_run : ℕ → RunEntry → RunStatus → Event → Queue → Queue
finalize_run now r status event q =
    let cell = q.next_id in
    let q1 =
      append_write (finalize cell r.project_id r.run_id status now)
        (record q { next_id = suc q.next_id }) in
    let q2 = release_run_slot r.run_id (record q1 { runs = delete_run r.run_id q1.runs }) in
    let q3 = append_effect (if_applied cell (publish r.project_id event)) q2 in
    let q4 =
      if q3.has_on_run_outcome
      then append_effect (if_applied cell (on_outcome r.project_id r.run_id status r.pl)) q3
      else q3 in
    append_success cell r status q4

-- The run with these tasks is written back; finalizeRunIfAllTerminalLocked.
unfoldable pub settle_run : ℕ → RunEntry → Queue → Queue
settle_run now r q =
    if all_terminal r.tasks
    then finalize_run now r (run_outcome r.tasks) (run_completed r.run_id (run_outcome r.tasks))
        (store_run r q)
    else store_run r q

-- The entry with its run's fields cleared for a new attempt, or for good.
unfoldable pub retry_entry : TaskEntry → TaskEntry
retry_entry e = record (transition_task TaskStatus.retrying e) {
  assigned_runtime_id = "";
  started_at = none;
  lease_at = none;
}

unfoldable pub end_entry : TaskStatus → TaskEntry → TaskEntry
end_entry status e = record (transition_task status e) { started_at = none; lease_at = none }

-- The first branch of failOrRetryLocked: attempts remain.
unfoldable pub retry_task : ℕ → String → Option ℕ → ℕ → RunEntry → TaskEntry → Queue → Queue
retry_task now error started_at ended_at r e q =
    let (e1, q1) = stop_entry_timer e q in
    let e2 = retry_entry e1 in
    let q2 =
      append_write (upsert (ended_row r e2 TaskStatus.running started_at ended_at error)) q1 in
    let (e3, q3) = schedule_retry now e2 q2 in
    store_run (record r { tasks = put_task e3 r.tasks }) q3

-- The second branch: the entry has failed for good, and its downstream is skipped.
unfoldable pub fail_task : ℕ → String → Option ℕ → ℕ → RunEntry → TaskEntry → Queue → Queue
fail_task now error started_at ended_at r e q =
    let (e1, q1) = stop_entry_timer e q in
    let e2 = end_entry TaskStatus.failed e1 in
    let q2 =
      append_effect
        (always (publish r.project_id (step_failed r.run_id (key e2) e2.attempts error))) q1 in
    let q3 =
      append_write (upsert (ended_row r e2 TaskStatus.failed started_at ended_at error)) q2 in
    let (tasks, q4) = skip_downstream (suc (length r.tasks)) r (key e2) (put_task e2 r.tasks, q3) in
    settle_run now (record r { tasks = tasks }) q4

-- failOrRetryLocked
unfoldable pub fail_or_retry : ℕ → String → Option ℕ → ℕ → RunEntry → TaskEntry → Queue → Queue
fail_or_retry now error started_at ended_at r e q =
    if ltb e.attempts e.max_attempts
    then retry_task now error started_at ended_at r e q
    else fail_task now error started_at ended_at r e q
