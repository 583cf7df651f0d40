-- ===== src/Queue/Dispatch.antt =====
-- internal/queue/queue.go: startTaskLocked, scheduleTimeoutLocked, dispatchIfNeeded and promoteReady.
-- Each function takes the time at which it runs, and returns the entry with the queue.
use piper.Prelude.{
  ℕ, suc, ◌+◌, String, Bool, true, false, none, some, List, [], ◌∷◌, ltb, ◌&&◌, if◌then◌else◌,
}
use piper.Queue.Types.{
  Queue, TaskEntry, TaskStatus, TimerKind, StepRow, RunEntry, step_ready, step_running, upsert,
}
use piper.Queue.Timers.{append_write, emit, stop_entry_timer, arm_timer, transition_task}
use piper.Queue.Tasks.{key, done_names, deps_all_done}

-- scheduleTimeoutLocked
unfoldable pub schedule_timeout : String → ℕ → TaskEntry → Queue → TaskEntry × Queue
schedule_timeout run_id deadline e q =
    let (e', q') = stop_entry_timer e q in arm_timer TimerKind.timeout run_id deadline e' q'

-- The deadline of a step with a timeout, in the entry and in the task.
unfoldable pub with_deadline : ℕ → String → TaskEntry → Queue → TaskEntry × Queue
with_deadline now run_id e q =
    if ltb 0 e.step.timeout
    then schedule_timeout run_id (now + e.step.timeout)
        (record e {
          deadline = some (now + e.step.timeout);
          task = record (e.task) { deadline = some (now + e.step.timeout) };
        })
        q
    else (record e { deadline = none; task = record (e.task) { deadline = none } }, q)

unfoldable pub running_row : ℕ → String → TaskEntry → StepRow
running_row now run_id e = record {
  project_id = e.task.project_id;
  run_id = run_id;
  step_name = key e;
  status = TaskStatus.running;
  started_at = some now;
  ended_at = none;
  attempts = e.attempts;
  error = "";
}

-- One more attempt, from `now` on.
unfoldable pub begin_attempt : ℕ → TaskEntry → TaskEntry
begin_attempt now e =
    let e' = transition_task TaskStatus.running (record e {
      attempts = suc e.attempts;
      task = record (e.task) { attempt = suc e.attempts };
    }) in
    record e' { started_at = some now; lease_at = some now }

-- startTaskLocked
unfoldable pub start_task : ℕ → String → TaskEntry → Queue → TaskEntry × Queue
start_task now run_id e q =
    let (e', q') = with_deadline now run_id (begin_attempt now e) q in
    (
      e',
      append_write (upsert (running_row now run_id e'))
          (emit e'.task.project_id (step_running run_id (key e') e'.attempts) q'),
    )

-- With no backend the task stays ready. The goroutine holds a copy of the task.
unfoldable pub dispatch_if_needed : ℕ → TaskEntry → Queue → TaskEntry × Queue
dispatch_if_needed now e q = elim q.backend [
  | none ↦ (e, q)
  | some b ↦
      let (e', q') = start_task now e.task.run_id e q in
      (e', record q' { wg = q'.wg + 1; dispatching = e'.task ∷ q'.dispatching })
]

abbrev pub is_pending : TaskStatus → Bool
is_pending TaskStatus.pending = true
is_pending _ = false

-- The body of promoteReady's loop.
unfoldable pub promote_task :
    ℕ → String → String → List String → TaskEntry → Queue → TaskEntry × Queue
promote_task now project_id run_id done e q =
    if is_pending e.status && deps_all_done e.step.depends_on done
    then dispatch_if_needed now (transition_task TaskStatus.ready e)
        (emit project_id (step_ready run_id (key e)) q)
    else (e, q)

unfoldable pub promote_tasks :
    ℕ → String → String → List String → List TaskEntry → Queue → List TaskEntry × Queue
promote_tasks now project_id run_id done [] q = ([], q)
promote_tasks now project_id run_id done (e ∷ tasks) q =
    let (e', q') = promote_task now project_id run_id done e q in
    let (tasks', q'') = promote_tasks now project_id run_id done tasks q' in (e' ∷ tasks', q'')

unfoldable pub promote_ready : ℕ → RunEntry → Queue → RunEntry × Queue
promote_ready now r q =
    let (tasks, q') = promote_tasks now r.project_id r.run_id (done_names r.tasks) r.tasks q in
    (record r { tasks = tasks }, q')
